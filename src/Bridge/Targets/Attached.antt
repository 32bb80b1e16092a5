-- ===== src/Bridge/Targets/Attached.antt =====
-- pkg/bridge/target.go and bridge.go: which targets a client has, and how it comes to be told of them.
use foxbridge.Common.{
  ℕ, String, Bool, true, not, ◌&&◌, List, [], ◌∷◌, Option, none, some, string_key, nat_key, ◌==◌,
  if◌then◌else◌,
}
use foxbridge.Dict.{bindings}
use foxbridge.Heap.{load}
use foxbridge.Cdp.Session.{SessionInfo, get_session}
use foxbridge.Bridge.Ownership.{same}
use foxbridge.Bridge.Ownership.Connections.{set_auto_attach}
use foxbridge.Bridge.Ownership.Queries.{owner_for_target, owned_pairs}
use foxbridge.Bridge.State.{State, Env, emit}
use foxbridge.Bridge.Attach.Announce.{emit_auto_attach_pair, emit_page_attach, publish_owned_pair}
use foxbridge.Bridge.Targets.Replies.{created_json}

module _ {Regexp B : Type 0} where
  unfoldable pub owned_target : State Regexp B → Option ℕ → String → Bool
  owned_target s none target_id = true
  owned_target s (some conn) target_id = same (owner_for_target s.ownership target_id) (some conn)

  abbrev pub is_listed : State Regexp B → Option ℕ → SessionInfo → Bool
  is_listed s conn info = not (info.type == "tab") && owned_target s conn info.target_id

  -- The loop of getTargets.
  unfoldable pub listed : State Regexp B → Option ℕ → List SessionInfo → List SessionInfo
  listed s conn [] = []
  listed s conn (info ∷ l) =
      let rest = listed s conn l in if is_listed s conn info then info ∷ rest else rest

module _ {Regexp B : Type 0} (env : Env B) where
  unfoldable pub announce_listed : State Regexp B → Option ℕ → List SessionInfo → State Regexp B
  announce_listed s conn [] = s
  announce_listed s conn (info ∷ l) =
      announce_listed
        (if is_listed s conn info
          then emit env s "Target.targetCreated" (created_json info) ""
          else s)
        conn l

  unfoldable pub publish_pairs : State Regexp B → List ℕ → State Regexp B
  publish_pairs s [] = s
  publish_pairs s (p ∷ l) = publish_pairs (publish_owned_pair env s p) l

  unfoldable pub attach_pending : State Regexp B → List ℕ → State Regexp B
  attach_pending s [] = s
  attach_pending s (p ∷ l) = attach_pending (emit_auto_attach_pair env s p) l

  -- The first pair of the loop over `autoAttach.pairs` whose tab has the session.
  abbrev tab_pair : State Regexp B → String → List (String × ℕ) → Option ℕ
  tab_pair s session_id [] = none
  tab_pair s session_id ((k, p) ∷ l) =
      let rest = tab_pair s session_id l in
      if (load s.pair_cells p).ids.tab_session_id == session_id then some p else rest

  abbrev attach_tab : State Regexp B → Option ℕ → State Regexp B
  attach_tab s none = s
  attach_tab s (some p) = emit_page_attach env s p

  unfoldable pub auto_attach_browser : State Regexp B → Option ℕ → Bool → State Regexp B
  auto_attach_browser s (some conn) on =
      let s' : State Regexp B = record s {
        ownership = set_auto_attach s.ownership (some conn) on;
      } in
      if on then publish_pairs s' (owned_pairs s'.ownership (some conn)) else s'
  auto_attach_browser s none on =
      let s' : State Regexp B = record s { auto_attach_on = on; pending_pairs = [] } in
      if on then attach_pending s' s.pending_pairs else s'

  unfoldable pub auto_attach_session : State Regexp B → String → State Regexp B
  auto_attach_session s session_id = elim (get_session s.sessions session_id) [
    | none ↦ s
    | some info ↦
        if info.type == "tab" then attach_tab s (tab_pair s session_id (bindings s.pairs)) else s
  ]

-- ===== src/Bridge/Ownership/Register.antt =====
-- pkg/bridge/ownership.go: the backend has attached a page or a worker, or a client a browser
-- session.
use foxbridge.Common.{
  ℕ, String, Bool, true, false, Option, none, some, nat_key, string_key, ◌==◌, if◌then◌else◌,
}
use foxbridge.Dict.{get, put, delete}
use foxbridge.Heap.{alloc}
use foxbridge.Bridge.Ownership.{
  TargetRecord, PendingCreate, PairIds, Registry, TargetLifecycle, target_open, target_closing,
}
use foxbridge.Bridge.Ownership.Connections.{state, state_locked, connection_closed_locked}

abbrev pub marked : Option Bool → Bool
marked none = false
marked (some b) = b

-- A claim for the target overrides the owner of its opener and an earlier cancellation.
abbrev pub resolve_claim : Registry → Option ℕ → Bool → Option PendingCreate → Option ℕ × Bool
resolve_claim r owner cancelled none = (owner, cancelled)
resolve_claim r owner cancelled (some claim) = (claim.owner, connection_closed_locked r claim.owner)

-- The claim and the cancellation are used up.
unfoldable pub used_up : Registry → String → Registry
used_up r target_id = record r {
  claims = delete r.claims target_id;
  cancelled_targets = delete r.cancelled_targets target_id;
}

unfoldable pub settled : Registry → String → Option ℕ → Bool → Registry × Option ℕ × Bool
settled r target_id owner cancelled =
    let r' = used_up r target_id in
    (if cancelled then r' else state r' owner, if cancelled then none else owner, cancelled)

-- The registry with the claim used up, and the owner and the cancelled flag of the new record.
unfoldable pub settle : Registry → Option ℕ → String → Registry × Option ℕ × Bool
settle r opener target_id =
    let (owner, cancelled) =
      resolve_claim r opener (marked (get r.cancelled_targets target_id))
        (get r.claims target_id) in
    settled r target_id owner cancelled

abbrev lifecycle : Bool → TargetLifecycle
lifecycle true = target_closing
lifecycle false = target_open

abbrev pub pair_record : Option ℕ → Bool → ℕ → PairIds → TargetRecord
pair_record owner cancelled pair ids = record {
  page_target_id = ids.page_target_id;
  tab_target_id = ids.tab_target_id;
  page_session_id = ids.page_session_id;
  tab_session_id = ids.tab_session_id;
  juggler_session_id = ids.juggler_session_id;
  owner = owner;
  state = lifecycle cancelled;
  pair = some pair;
  cleaned = false;
  cancelled = cancelled;
}

unfoldable pub insert_pair : Registry → Option ℕ → Bool → ℕ → PairIds → Registry
insert_pair r owner cancelled pair ids =
    let p = r.records.next in
    record r {
      records = alloc r.records (pair_record owner cancelled pair ids);
      targets = put (put r.targets ids.page_target_id p) ids.tab_target_id p;
      sessions = put (put r.sessions ids.page_session_id p) ids.tab_session_id p;
    }

unfoldable pub register_pair : Registry → Option ℕ → ℕ → PairIds → Registry × ℕ
register_pair r opener pair ids =
    let (r', owner, cancelled) = settle r opener ids.page_target_id in
    (insert_pair r' owner cancelled pair ids, r'.records.next)

unfoldable pub register_worker : Registry → Option ℕ → String → String → String → Registry × ℕ
register_worker r opener target_id session_id juggler_session_id =
    let (r', owner, cancelled) = settle r opener target_id in
    let p = r'.records.next in
    (
      record r' {
        records = alloc r'.records (record {
          page_target_id = target_id;
          tab_target_id = "";
          page_session_id = session_id;
          tab_session_id = "";
          juggler_session_id = juggler_session_id;
          owner = owner;
          state = lifecycle cancelled;
          pair = none;
          cleaned = false;
          cancelled = cancelled;
        });
        targets = put r'.targets target_id p;
        sessions = put r'.sessions session_id p;
      },
      p,
    )

unfoldable pub register_browser_session : Registry → Option ℕ → String → Registry
unfolding state_locked
register_browser_session r none session_id = r
register_browser_session r (some conn) session_id =
    if session_id == ""
    then r
    else let r' = state_locked r conn in
      record r' { browser_sessions = put r'.browser_sessions session_id conn }

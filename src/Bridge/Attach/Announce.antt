-- ===== src/Bridge/Attach/Announce.antt =====
-- pkg/bridge/events.go and bridge.go: telling a client of a page.
use foxbridge.Common.{
  ℕ, String, Bool, true, false, not, ◌&&◌, ◌||◌, [], ◌∷◌, Option, none, some, string_key, nat_key,
  ◌==◌, if◌then◌else◌,
}
use foxbridge.Heap.{load, store}
use foxbridge.Bridge.Ownership.Connections.{discover_enabled, auto_attach_enabled}
use foxbridge.Bridge.Ownership.Queries.{record_for_target, record_details}
use foxbridge.Bridge.Json.{Json, str, flag, object}
use foxbridge.Bridge.State.{State, Env, TargetPair, emit, send_owned_event}
use foxbridge.Bridge.Release.{without_pair}

abbrev pub url_or_blank : String → String
url_or_blank url = if url == "" then "about:blank" else url

abbrev pub page_info : TargetPair → Json
page_info pair = object (
    ("targetId", str pair.ids.page_target_id)
    ∷ ("type", str "page")
    ∷ ("title", str "")
    ∷ ("url", str (url_or_blank pair.url))
    ∷ ("attached", flag true)
    ∷ ("canAccessOpener", flag false)
    ∷ ("browserContextId", str pair.browser_ctx_id)
    ∷ [])

abbrev pub attached_params : TargetPair → Json
attached_params pair = object (
    ("sessionId", str pair.ids.page_session_id)
    ∷ ("targetInfo", page_info pair)
    ∷ ("waitingForDebugger", flag true)
    ∷ [])

abbrev pub mark_attached : TargetPair → String → TargetPair
mark_attached pair parent =
    if parent == ""
    then record pair { page_attached_root = true }
    else record pair { page_attached_tab = true }

-- It has been told already: by the root session, or by this tab.
abbrev pub is_attached : TargetPair → String → Bool
is_attached pair parent = pair.page_attached_root || (not (parent == "") && pair.page_attached_tab)

module _ {Regexp B : Type 0} (env : Env B) where
  unfoldable pub emit_page_attach_on_session : State Regexp B → ℕ → String → State Regexp B
  unfolding emit
  emit_page_attach_on_session s p parent =
      let pair = load s.pair_cells p in
      if is_attached pair parent
      then s
      else emit env (record s { pair_cells = store s.pair_cells p (mark_attached pair parent) })
          "Target.attachedToTarget" (attached_params pair) parent

  unfoldable pub emit_auto_attach_pair : State Regexp B → ℕ → State Regexp B
  unfolding emit_page_attach_on_session
  emit_auto_attach_pair s p = emit_page_attach_on_session s p ""

  unfoldable pub emit_page_attach : State Regexp B → ℕ → State Regexp B
  unfolding emit_page_attach_on_session
  emit_page_attach s p = emit_page_attach_on_session s p (load s.pair_cells p).ids.tab_session_id

  unfoldable pub publish_to : State Regexp B → ℕ → ℕ → State Regexp B
  unfolding send_owned_event
  publish_to s owner p =
      let s1 = record s { pending_pairs = without_pair (some p) s.pending_pairs } in
      let s2 =
        if discover_enabled s1.ownership (some owner)
        then send_owned_event env s1 (some owner) "Target.targetCreated"
            (object (("targetInfo", page_info (load s1.pair_cells p)) ∷ [])) ""
        else s1 in
      if auto_attach_enabled s2.ownership (some owner) then emit_auto_attach_pair s2 p else s2

  abbrev publish_owned : State Regexp B → ℕ → Option ℕ → Bool → State Regexp B
  publish_owned s p none cancelled = s
  publish_owned s p (some owner) cancelled = if cancelled then s else publish_to s owner p

  abbrev publish_found : State Regexp B → ℕ → Option ℕ → State Regexp B
  publish_found s p none = s
  publish_found s p (some record_at) =
      let (owner, pair, cancelled) = record_details s.ownership (some record_at) in
      publish_owned s p owner cancelled

  unfoldable pub publish_owned_pair : State Regexp B → ℕ → State Regexp B
  unfolding publish_to
  publish_owned_pair s p =
      publish_found s p (record_for_target s.ownership (load s.pair_cells p).ids.page_target_id)

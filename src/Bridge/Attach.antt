-- ===== src/Bridge/Attach.antt =====
-- pkg/bridge/events.go and bridge.go: a page or a worker appears or goes, and its client is told.
pub mod Announce
pub mod Once
pub mod Arrivals
use Prim.Native.String.{◌++◌ as text_append}
use foxbridge.Common.{
  ℕ, String, Bool, true, false, not, ◌&&◌, ◌||◌, List, [], ◌∷◌, ◌++◌, Option, none, some,
  string_key, nat_key, ◌==◌, if◌then◌else◌, is_some,
}
use foxbridge.Dict.{get, put, delete}
use foxbridge.Heap.{load, store, alloc}
use foxbridge.Cdp.Session.{SessionInfo, add, get_by_juggler_session, get_by_target, remove}
use foxbridge.Bridge.Ownership.{PairIds}
use foxbridge.Bridge.Ownership.Connections.{discover_enabled, auto_attach_enabled}
use foxbridge.Bridge.Ownership.Register.{register_pair, register_worker}
use foxbridge.Bridge.Ownership.Queries.{owner_for_target, record_for_target, record_details}
use foxbridge.Bridge.Json.{Json, str, flag, object}
use foxbridge.Bridge.State.{
  State, Env, TargetPair, emit, send_owned_event, new_uuid, cdp_browser_context_id,
}
use foxbridge.Bridge.Attach.Announce.{
  page_info, url_or_blank, attached_params, mark_attached, is_attached, emit_page_attach_on_session,
  emit_auto_attach_pair, emit_page_attach, publish_to, publish_owned_pair,
}
use foxbridge.Bridge.Release.{close_record, without_pair}
use foxbridge.Bridge.Deterministic.{apply_deterministic_prelude}

-- The parameters of Browser.attachedToTarget.
pub record AttachedTarget : Type 0 where
  pub session_id : String
  pub target_id : String
  pub browser_context_id : String
  pub type : String
  pub url : String
  pub opener_id : String

abbrev worker_params : String → AttachedTarget → String → Json
worker_params session_id ev browser_context_id = object (
    ("sessionId", str session_id)
    ∷ (
      "targetInfo",
      object (
          ("targetId", str ev.target_id)
          ∷ ("type", str ev.type)
          ∷ ("title", str "")
          ∷ ("url", str ev.url)
          ∷ ("attached", flag true)
          ∷ ("canAccessOpener", flag false)
          ∷ ("browserContextId", str browser_context_id)
          ∷ []),
    )
    ∷ ("waitingForDebugger", flag false)
    ∷ [])

abbrev or_empty : Option String → String
or_empty none = ""
or_empty (some id) = id

abbrev target_or : String → Option SessionInfo → String
target_or target_id none = target_id
target_or target_id (some info) = info.target_id

module _ {Regexp B : Type 0} (env : Env B) where
  abbrev worker_auto : State Regexp B → Option ℕ → Bool
  worker_auto s none = s.auto_attach_on
  worker_auto s (some owner) = auto_attach_enabled s.ownership (some owner)

  unfoldable pub attach_worker : State Regexp B → AttachedTarget → State Regexp B
  unfolding new_uuid emit close_record
  attach_worker s ev =
      let (s1, session_id) = new_uuid env s in
      let browser_context_id = cdp_browser_context_id ev.browser_context_id in
      let sm = add s1.sessions (
        some (record {
          session_id = session_id;
          juggler_session_id = ev.session_id;
          target_id = ev.target_id;
          browser_context_id = browser_context_id;
          url = ev.url;
          title = "";
          type = ev.type;
          frame_id = "";
        })) in
      let (r, p) =
        register_worker s1.ownership (owner_for_target s1.ownership ev.opener_id) ev.target_id
          session_id ev.session_id in
      let s2 = record s1 { sessions = sm; ownership = r } in
      let (owner, pair, cancelled) = record_details r (some p) in
      if cancelled
      then close_record env s2 p true
      else if worker_auto s2 owner
      then emit env s2 "Target.attachedToTarget" (worker_params session_id ev browser_context_id) ""
      else s2

  -- The two sessions of a page, that of the page itself and that of its tab.
  unfoldable pub add_page_sessions : State Regexp B → TargetPair → State Regexp B
  unfolding apply_deterministic_prelude
  add_page_sessions s pair =
      let juggler = pair.ids.juggler_session_id in
      let page : SessionInfo = record {
        session_id = pair.ids.page_session_id;
        juggler_session_id = juggler;
        target_id = pair.ids.page_target_id;
        browser_context_id = pair.browser_ctx_id;
        url = pair.url;
        title = "";
        type = "page";
        frame_id = or_empty (get s.pending_frame_ids juggler);
      } in
      let s1 =
        apply_deterministic_prelude env
          (record s {
            pending_frame_ids = delete s.pending_frame_ids juggler;
            sessions = add s.sessions (some page);
          })
          pair.ids.page_session_id in
      record s1 {
        sessions = add s1.sessions (
            some (record {
              session_id = pair.ids.tab_session_id;
              juggler_session_id = text_append "tab:" juggler;
              target_id = pair.ids.tab_target_id;
              browser_context_id = pair.browser_ctx_id;
              url = pair.url;
              title = "";
              type = "tab";
              frame_id = "";
            }));
      }

  -- The end of the handler, once the pair is registered.
  unfoldable pub announce_pair : State Regexp B → ℕ → ℕ → State Regexp B
  unfolding close_record publish_owned_pair emit_auto_attach_pair
  announce_pair s p record_at =
      let (owner, pair, cancelled) = record_details s.ownership (some record_at) in
      if cancelled
      then close_record env s record_at true
      else if is_some owner
      then publish_owned_pair env s p
      else if s.auto_attach_on
      then emit_auto_attach_pair env s p
      else record s { pending_pairs = s.pending_pairs ++ p ∷ [] }

  unfoldable pub attach_page : State Regexp B → AttachedTarget → State Regexp B
  unfolding new_uuid add_page_sessions announce_pair
  attach_page s ev =
      let (s1, tab_session_id) = new_uuid env s in
      let (s2, page_session_id) = new_uuid env s1 in
      let (s3, tab_target_id) = new_uuid env s2 in
      let pair : TargetPair = record {
        ids = record {
          tab_session_id = tab_session_id;
          tab_target_id = tab_target_id;
          page_session_id = page_session_id;
          page_target_id = ev.target_id;
          juggler_session_id = ev.session_id;
        };
        browser_ctx_id = cdp_browser_context_id ev.browser_context_id;
        url = ev.url;
        page_attached_root = false;
        page_attached_tab = false;
      } in
      let p = s3.pair_cells.next in
      let s4 = add_page_sessions (record s3 { pair_cells = alloc s3.pair_cells pair }) pair in
      let (r, record_at) =
        register_pair s4.ownership (owner_for_target s4.ownership ev.opener_id) p pair.ids in
      announce_pair (record s4 { ownership = r; pairs = put s4.pairs ev.session_id p }) p record_at

  -- Browser.attachedToTarget; `none` stands for parameters that cannot be decoded.
  unfoldable pub attached_to_target : State Regexp B → Option AttachedTarget → State Regexp B
  unfolding attach_worker attach_page
  attached_to_target s none = s
  attached_to_target s (some ev) =
      if ev.type == "worker" || ev.type == "service_worker"
      then attach_worker s ev
      else attach_page s ev

  abbrev drop_session : State Regexp B → Option SessionInfo → State Regexp B
  drop_session s none = s
  drop_session s (some info) = record s { sessions = remove s.sessions info.session_id }

  abbrev detach_found : State Regexp B → String → Option ℕ → State Regexp B
  detach_found s target_id (some p) = close_record env s p false
  detach_found s target_id none = drop_session s (get_by_target s.sessions target_id)

  -- Browser.detachedFromTarget, with its session id and its target id.
  unfoldable pub detached_from_target : State Regexp B → Option (String × String) → State Regexp B
  unfolding close_record
  detached_from_target s none = s
  detached_from_target s (some (session_id, target_id)) =
      let found =
        if target_id == ""
        then target_or target_id (get_by_juggler_session s.sessions session_id)
        else target_id in
      detach_found s found (record_for_target s.ownership found)

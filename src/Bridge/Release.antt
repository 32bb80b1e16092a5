-- ===== src/Bridge/Release.antt =====
-- pkg/bridge/bridge.go: a page or a client goes away: `ConnectionClosed`, `closeRecord`,
-- `clearConnectionState`.
pub mod Forgets
pub mod Once
pub mod Clients
use foxbridge.Common.{
  ℕ, String, Bool, true, false, not, ◌&&◌, ◌||◌, List, [], ◌∷◌, Option, none, some, string_key,
  nat_key, ◌==◌, if◌then◌else◌,
}
use foxbridge.Dict.{Dict, get, delete, delete_where}
use foxbridge.Heap.{load}
use foxbridge.Cdp.Session.{SessionManager, remove}
use foxbridge.Bridge.Ownership.{TargetRecord, same}
use foxbridge.Bridge.Ownership.Requests.{clear_requests}
use foxbridge.Bridge.Ownership.Queries.{record_details}
use foxbridge.Bridge.Ownership.Cleanup.{begin_cleanup, close_connection}
use foxbridge.Bridge.Ownership.Cleanup.{remove as remove_record}
use foxbridge.Bridge.Fetch.{fetch_interception_enabled}
use foxbridge.Bridge.Json.{Json, str, flag, object}
use foxbridge.Bridge.State.{State, Env, is_owned_by, call_juggler, send_owned_event}

-- `ctxOwners[id] == session`, where a missing owner is the empty text.
abbrev owns_or_empty : String → Option String → Bool
owns_or_empty session_id none = session_id == ""
owns_or_empty session_id (some owner) = owner == session_id

-- The loop over `autoAttach.pending`.
unfoldable pub without_pair : Option ℕ → List ℕ → List ℕ
without_pair pair [] = []
without_pair pair (candidate ∷ l) =
    let rest = without_pair pair l in if same (some candidate) pair then rest else candidate ∷ rest

module _ {Regexp B : Type 0} where
  abbrev owned_context : State Regexp B → TargetRecord → ℕ → Option String → Bool
  owned_context s t id none = false
  owned_context s t id (some juggler_id) =
      juggler_id == t.juggler_session_id || owns_or_empty t.page_session_id (get s.ctx_owners id)

  -- One round of the loop of `clearConnectionState`.
  unfoldable pub clear_record_state : State Regexp B → TargetRecord → State Regexp B
  unfolding clear_requests
  clear_record_state s t =
      let page = t.page_session_id in
      let juggler = t.juggler_session_id in
      record s {
        loader_map = delete s.loader_map page;
        isolated_worlds = delete s.isolated_worlds page;
        last_query = delete s.last_query page;
        last_query_all = delete s.last_query_all page;
        last_query_skips = delete s.last_query_skips page;
        last_dialog = delete s.last_dialog page;
        fetch_patterns = delete s.fetch_patterns page;
        pending_context_clear = delete s.pending_context_clear page;
        deterministic_applied = delete s.deterministic_applied page;
        latest_ctx = delete s.latest_ctx juggler;
        sub_frames = delete s.sub_frames juggler;
        ctx_map = delete_where (λ id juggler_id. owned_context s t id (some juggler_id)) s.ctx_map;
        ctx_owners =
            delete_where (λ id owner. owned_context s t id (get s.ctx_map id)) s.ctx_owners;
        ctx_unique_owners = delete_where (λ id owner. owner == page) s.ctx_unique_owners;
        node_owners = delete_where (λ id owner. owner == page) s.node_owners;
        node_objects =
            delete_where (λ id object_id. is_owned_by page (get s.node_owners id)) s.node_objects;
        object_owners = delete_where (λ id owner. owner == page) s.object_owners;
        streams = record {
          pdf_streams =
              delete_where (λ handle text. is_owned_by page (get s.streams.pdf_owners handle))
                s.streams.pdf_streams;
          pdf_owners = delete_where (λ handle owner. owner == page) s.streams.pdf_owners;
        };
        ownership = clear_requests s.ownership page;
        pending_frame_ids = delete s.pending_frame_ids juggler;
        pairs = delete s.pairs juggler;
      }

  module _ (env : Env B) where
    unfoldable pub disable_fetch_if_unused : State Regexp B → State Regexp B
    unfolding fetch_interception_enabled call_juggler
    disable_fetch_if_unused s =
        if fetch_interception_enabled s.fetch_patterns
        then s
        else (call_juggler env s "" "Browser.setRequestInterception"
            (some (object (("enabled", flag false) ∷ [])))).0

    -- Page.close is asked for on the session of the page, whose reply is only logged.
    unfoldable pub close_page : State Regexp B → TargetRecord → Bool → State Regexp B
    unfolding call_juggler
    close_page s t close_backend =
        if close_backend && not (t.page_session_id == "")
        then (call_juggler env s t.page_session_id "Page.close" none).0
        else s

    -- The two events that tell the client that the page is gone.
    unfoldable pub announce_end : State Regexp B → Option ℕ → TargetRecord → State Regexp B
    unfolding send_owned_event
    announce_end s owner t =
        let detached =
          send_owned_event env s owner "Target.detachedFromTarget"
            (object
              (("sessionId", str t.page_session_id) ∷ ("targetId", str t.page_target_id) ∷ []))
            "" in
        send_owned_event env detached owner "Target.targetDestroyed"
          (object (("targetId", str t.page_target_id) ∷ [])) ""

    -- The sessions, the pair and the record of a page are dropped.
    unfoldable pub drop_record : State Regexp B → ℕ → TargetRecord → State Regexp B
    unfolding without_pair
    drop_record s p t = record s {
      sessions = remove (remove s.sessions t.page_session_id) t.tab_session_id;
      pairs =
          if not (t.juggler_session_id == "") then delete s.pairs t.juggler_session_id else s.pairs;
      pending_pairs = without_pair t.pair s.pending_pairs;
      ownership = remove_record s.ownership (some p);
    }

    -- `closeRecord` once `beginCleanup` has let it through.
    unfoldable pub close_begun : State Regexp B → Option ℕ → ℕ → Bool → State Regexp B
    unfolding close_page clear_record_state disable_fetch_if_unused announce_end drop_record
    close_begun s owner p close_backend =
        let t = load s.ownership.records p in
        let closed = close_page s t close_backend in
        let cleared = disable_fetch_if_unused (clear_record_state closed t) in
        drop_record (announce_end cleared owner t) p t

    unfoldable pub close_record : State Regexp B → ℕ → Bool → State Regexp B
    unfolding close_begun
    close_record s p close_backend =
        let (owner, pair, cancelled) = record_details s.ownership (some p) in
        let (r, begun) = begin_cleanup s.ownership (some p) in
        if begun then close_begun (record s { ownership = r }) owner p close_backend else s

    unfoldable pub close_records : State Regexp B → List ℕ → State Regexp B
    unfolding close_record
    close_records s [] = s
    close_records s (p ∷ l) = close_records (close_record s p true) l

    unfoldable pub connection_closed : State Regexp B → Option ℕ → State Regexp B
    unfolding close_records disable_fetch_if_unused
    connection_closed s conn =
        let (r, records) = close_connection s.ownership conn in
        disable_fetch_if_unused (close_records (record s { ownership = r }) records)

-- ===== src/Bridge/Release/Forgets.antt =====
-- pkg/bridge/bridge.go: `closeRecord` forgets what belongs to the page, and nothing else.
use foxbridge.Common.{
  ℕ, String, ◌≡◌, ◌≢◌, refl, ap, ◌∙◌, sym, subst⁻¹, inl, inr, Bool, true, not, ◌&&◌, List, Option,
  none, some, arith, string_key, nat_key, Bool-cases, ◌==◌, if◌then◌else◌,
}
use foxbridge.Dict.{get, delete, get-delete, dict_laws}
use foxbridge.Heap.{load, load-store}
use foxbridge.Cdp.Message.{Message}
use foxbridge.Cdp.Session.{SessionManager, get_session, remove, remove_found, clone_found}
use foxbridge.Bridge.Ownership.{Registry, TargetRecord}
use foxbridge.Bridge.Ownership.Cleanup.{begin_cleanup}
use foxbridge.Bridge.Ownership.Cleanup.{remove as remove_record}
use foxbridge.Bridge.Ownership.Requests.{clear_requests}
use foxbridge.Bridge.Fetch.{fetch_interception_enabled}
use foxbridge.Bridge.State.{State, Env, is_owned_by, call_juggler, send_owned_event}
use foxbridge.Bridge.Release.{
  clear_record_state, disable_fetch_if_unused, close_page, announce_end, drop_record, close_begun,
  close_record,
}

get_session-remove : (sm : SessionManager) (k : String) → get_session (remove sm k) k ≡ none
unfolding get_session remove remove_found clone_found
get_session-remove sm k = grind (arith, dict_laws)

pub get_session-remove_keeps :
    (sm : SessionManager) (k j : String)
    → get_session sm j ≡ none
    → get_session (remove sm k) j ≡ none
unfolding get_session remove remove_found clone_found
get_session-remove_keeps sm k j h = grind (arith, dict_laws)

get_session-remove_twice :
    (sm : SessionManager) (k j : String) → get_session (remove (remove sm k) j) k ≡ none
get_session-remove_twice sm k j =
    get_session-remove_keeps (remove sm k) j k (get_session-remove sm k)

pub begin_cleanup-ids :
    (r : Registry) (p : ℕ)
    → let t = load r.records p in
      let t' = load (begin_cleanup r (some p)).0.records p in
      (t'.page_session_id ≡ t.page_session_id)
      × (t'.juggler_session_id ≡ t.juggler_session_id)
      × (t'.tab_session_id ≡ t.tab_session_id)
unfolding begin_cleanup
begin_cleanup-ids r p = grind (arith, load-store)

begin_cleanup-request_owners :
    (r : Registry) (p : ℕ) → (begin_cleanup r (some p)).0.request_owners ≡ r.request_owners
unfolding begin_cleanup
begin_cleanup-request_owners r p = ground arith

remove-request_owners :
    (r : Registry) (p : ℕ) → (remove_record r (some p)).request_owners ≡ r.request_owners
unfolding remove_record
remove-request_owners r p = refl

module _ {Regexp B : Type 0} (env : Env B) where
  -- Only the backend and the messages sent may differ.
  abbrev pub IsQuiet : State Regexp B → State Regexp B → Type 0
  IsQuiet s s' = s' ≡ record s { backend = s'.backend; sent = s'.sent }

  close_page-IsQuiet :
      (s : State Regexp B) (t : TargetRecord) (b : Bool) → IsQuiet s (close_page env s t b)
  unfolding close_page call_juggler
  close_page-IsQuiet s t b = elim (Bool-cases (b && not (t.page_session_id == ""))) [
    | inl y ↦ rw y
    | inr n ↦ rw n
  ]

  pub disable_fetch-IsQuiet : (s : State Regexp B) → IsQuiet s (disable_fetch_if_unused env s)
  unfolding disable_fetch_if_unused call_juggler
  disable_fetch-IsQuiet s = elim (Bool-cases (fetch_interception_enabled s.fetch_patterns)) [
    | inl y ↦ rw y
    | inr n ↦ rw n
  ]

  announce_end-IsQuiet :
      (s : State Regexp B) (owner : Option ℕ) (t : TargetRecord)
      → IsQuiet s (announce_end env s owner t)
  unfolding announce_end send_owned_event
  announce_end-IsQuiet s none t = refl
  announce_end-IsQuiet s (some c) t = refl

  IsQuiet-trans : (a b c : State Regexp B) → IsQuiet a b → IsQuiet b c → IsQuiet a c
  IsQuiet-trans a b c e f = f ∙ ap quieted e
    where
      quieted : State Regexp B → State Regexp B
      quieted x = record x { backend = c.backend; sent = c.sent }

  clear-IsQuiet :
      (t : TargetRecord) (a b : State Regexp B)
      → IsQuiet a b
      → IsQuiet (clear_record_state a t) (clear_record_state b t)
  unfolding clear_record_state
  clear-IsQuiet t a b e = ap (λ x. clear_record_state x t) e

  drop-IsQuiet :
      (p : ℕ) (t : TargetRecord) (a b : State Regexp B)
      → IsQuiet a b
      → IsQuiet (drop_record env a p t) (drop_record env b p t)
  unfolding drop_record
  drop-IsQuiet p t a b e = ap (λ x. drop_record env x p t) e

  pub close_begun-IsQuiet :
      (s : State Regexp B) (owner : Option ℕ) (p : ℕ) (b : Bool)
      → let t = load s.ownership.records p in
        IsQuiet (drop_record env (clear_record_state s t) p t) (close_begun env s owner p b)
  unfolding close_begun
  close_begun-IsQuiet s owner p b =
      let t = load s.ownership.records p in
      let closed = close_page env s t b in
      let cleared = clear_record_state closed t in
      let quiet = disable_fetch_if_unused env cleared in
      let told = announce_end env quiet owner t in
      drop-IsQuiet p t (clear_record_state s t) told (
        IsQuiet-trans (clear_record_state s t) cleared told
          (clear-IsQuiet t s closed (close_page-IsQuiet s t b))
          (IsQuiet-trans cleared quiet told (disable_fetch-IsQuiet cleared)
            (announce_end-IsQuiet quiet owner t)))

-- The owner of an entry, when the entries of one session are left out.
abbrev pub except : String → Option String → Option String
except page none = none
except page (some owner) = if owner == page then none else some owner

module _ {Regexp B : Type 0} where
  -- What `s` knew of a page session and of a Juggler session is gone from `s'`, and what it knew of
  -- the others is there as it was.
  pub record Forgets (page juggler : String) (s s' : State Regexp B) : Type 0 where
    pub node_owners : (k : ℕ) → get s'.node_owners k ≡ except page (get s.node_owners k)
    pub node_objects :
        (k : ℕ)
        → get s'.node_objects k
          ≡ (if is_owned_by page (get s.node_owners k) then none else get s.node_objects k)
    pub object_owners : (k : String) → get s'.object_owners k ≡ except page (get s.object_owners k)
    pub unique_contexts :
        (k : String) → get s'.ctx_unique_owners k ≡ except page (get s.ctx_unique_owners k)
    pub contexts : (k : ℕ) → is_owned_by page (get s.ctx_owners k) ≡ true → get s'.ctx_map k ≡ none
    pub other_contexts :
        (k : ℕ) (id owner : String)
        → get s.ctx_map k ≡ some id
        → id ≢ juggler
        → get s.ctx_owners k ≡ some owner
        → owner ≢ page
        → (get s'.ctx_map k ≡ some id) × (get s'.ctx_owners k ≡ some owner)
    pub pdf_owners :
        (k : String) → get s'.streams.pdf_owners k ≡ except page (get s.streams.pdf_owners k)
    pub pdf_streams :
        (k : String)
        → get s'.streams.pdf_streams k ≡ (
            if is_owned_by page (get s.streams.pdf_owners k)
            then none
            else get s.streams.pdf_streams k)
    pub fetch_patterns :
        (k : String)
        → get s'.fetch_patterns k ≡ (if page == k then none else get s.fetch_patterns k)
    pub last_dialog :
        (k : String) → get s'.last_dialog k ≡ (if page == k then none else get s.last_dialog k)
    pub isolated_worlds :
        (k : String)
        → get s'.isolated_worlds k ≡ (if page == k then none else get s.isolated_worlds k)
    pub loaders :
        (k : String) → get s'.loader_map k ≡ (if page == k then none else get s.loader_map k)
    pub last_query :
        (k : String) → get s'.last_query k ≡ (if page == k then none else get s.last_query k)
    pub last_query_all :
        (k : String)
        → get s'.last_query_all k ≡ (if page == k then none else get s.last_query_all k)
    pub last_query_skips :
        (k : String)
        → get s'.last_query_skips k ≡ (if page == k then none else get s.last_query_skips k)
    pub pending_context_clear :
        (k : String)
        → get s'.pending_context_clear k
          ≡ (if page == k then none else get s.pending_context_clear k)
    pub deterministic_applied :
        (k : String)
        → get s'.deterministic_applied k
          ≡ (if page == k then none else get s.deterministic_applied k)
    pub pending_frame_ids :
        (k : String)
        → get s'.pending_frame_ids k ≡ (if juggler == k then none else get s.pending_frame_ids k)
    pub pairs : (k : String) → get s'.pairs k ≡ (if juggler == k then none else get s.pairs k)
    pub request_owners :
        (k : String)
        → get s'.ownership.request_owners k ≡ except page (get s.ownership.request_owners k)
    pub latest_ctx :
        (k : String) → get s'.latest_ctx k ≡ (if juggler == k then none else get s.latest_ctx k)
    pub sub_frames :
        (k : String) → get s'.sub_frames k ≡ (if juggler == k then none else get s.sub_frames k)

module _ {Regexp B : Type 0} (env : Env B) where
  abbrev pub released : State Regexp B → Registry → ℕ → B → List (ℕ × Message) → State Regexp B
  released s r p b l =
      let t = load r.records p in
      record (drop_record env (clear_record_state (record s { ownership = r }) t) p t) {
        backend = b;
        sent = l;
      }

  released-Forgets :
      (s : State Regexp B) (r : Registry) (p : ℕ) (b : B) (l : List (ℕ × Message))
      → r.request_owners ≡ s.ownership.request_owners
      → let t = load r.records p in
        Forgets t.page_session_id t.juggler_session_id s (released s r p b l)
  unfolding clear_record_state drop_record clear_requests
  released-Forgets s r p b l kept = record {
    node_owners = λ k. simp dict_laws (ground arith);
    node_objects = λ k. simp dict_laws (ground arith);
    object_owners = λ k. simp dict_laws (ground arith);
    unique_contexts = λ k. simp dict_laws (ground arith);
    contexts = λ k h. simp dict_laws (ground arith);
    other_contexts =
        λ k id owner m n o q. (simp dict_laws (ground arith), simp dict_laws (ground arith));
    pdf_owners = λ k. simp dict_laws (ground arith);
    pdf_streams = λ k. simp dict_laws (ground arith);
    fetch_patterns = λ k. simp dict_laws (ground arith);
    last_dialog = λ k. simp dict_laws (ground arith);
    isolated_worlds = λ k. simp dict_laws (ground arith);
    loaders = λ k. simp dict_laws (ground arith);
    last_query = λ k. simp dict_laws (ground arith);
    last_query_all = λ k. simp dict_laws (ground arith);
    last_query_skips = λ k. simp dict_laws (ground arith);
    pending_context_clear = λ k. simp dict_laws (ground arith);
    deterministic_applied = λ k. simp dict_laws (ground arith);
    pending_frame_ids = λ k. simp dict_laws (ground arith);
    pairs = λ k. ground (
      arith,
      get-delete s.pairs (load r.records p).juggler_session_id k,
      get-delete (delete s.pairs (load r.records p).juggler_session_id)
          (load r.records p).juggler_session_id k,
    );
    request_owners = λ k. rw (remove-request_owners, kept) (simp dict_laws (ground arith));
    latest_ctx = λ k. simp dict_laws (ground arith);
    sub_frames = λ k. simp dict_laws (ground arith);
  }

  released-sessions :
      (s : State Regexp B) (r : Registry) (p : ℕ) (b : B) (l : List (ℕ × Message))
      → let t = load r.records p in
        (get_session (released s r p b l).sessions t.page_session_id ≡ none)
        × (get_session (released s r p b l).sessions t.tab_session_id ≡ none)
  unfolding drop_record clear_record_state
  released-sessions s r p b l =
      let t = load r.records p in
      (
        get_session-remove_twice s.sessions t.page_session_id t.tab_session_id,
        get_session-remove (remove s.sessions t.page_session_id) t.tab_session_id,
      )

  pub close_record-begun :
      (s : State Regexp B) (p : ℕ) (b : Bool)
      → (begin_cleanup s.ownership (some p)).1 ≡ true
      → let s' = close_record env s p b in
        s' ≡ released s (begin_cleanup s.ownership (some p)).0 p s'.backend s'.sent
  unfolding close_record
  close_record-begun s p b h = rw h (
      close_begun-IsQuiet env (record s { ownership = (begin_cleanup s.ownership (some p)).0 }) _ p
        b)

  pub close_record-Forgets :
      (s : State Regexp B) (p : ℕ) (b : Bool)
      → (begin_cleanup s.ownership (some p)).1 ≡ true
      → let t = load s.ownership.records p in
        let s' = close_record env s p b in
        Forgets t.page_session_id t.juggler_session_id s s'
        × (get_session s'.sessions t.page_session_id ≡ none)
        × (get_session s'.sessions t.tab_session_id ≡ none)
  close_record-Forgets s p b h =
      let r = (begin_cleanup s.ownership (some p)).0 in
      let (i, j, k) = begin_cleanup-ids s.ownership p in
      let s' = close_record env s p b in
      subst⁻¹
        (λ x.
          let t = load s.ownership.records p in
          Forgets t.page_session_id t.juggler_session_id s x
          × (get_session x.sessions t.page_session_id ≡ none)
          × (get_session x.sessions t.tab_session_id ≡ none))
        (close_record-begun s p b h)
        (let (m, n) = released-sessions s r p s'.backend s'.sent in
          (
            rw (sym i, sym j)
                (released-Forgets s r p s'.backend s'.sent
                  (begin_cleanup-request_owners s.ownership p)),
            rw (sym i) m,
            rw (sym k) n,
          ))

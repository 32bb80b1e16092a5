-- ===== src/Cdp/Session/Search.antt =====
-- pkg/cdp/session.go: the methods that walk all sessions, GetByFrameID, All and
-- GetBrowserContexts.
use foxbridge.Common.{
  ℕ, String, ◌≡◌, refl, ◌≢◌, ◌⊎◌, inl, inr, Bool, true, ◌&&◌, not, List, [], ◌∷◌, ◌++◌, none, some,
  arith, Bool-cases, string_key, is_some, nat_key, ◌==◌, In, In-append, In-append_left,
  In-append_right, Distinct, Distinct-append_one,
}
use foxbridge.Dict.{Dict, empty, get, put, bindings, get-put, get-empty}
use foxbridge.Dict.Loops.{In-bindings, get-In-bindings}
use foxbridge.Heap.{Heap, load}
use foxbridge.Cdp.Session.{
  SessionInfo, SessionManager, get_session, infos_of, first_page, all_sessions, get_by_frame_id,
  collect_contexts, get_browser_contexts,
}
use foxbridge.Cdp.Session.Indices.{Reach, Reach-IsConsistent, get_session-pointer}

In-infos_of :
    (h : Heap SessionInfo) (l : List (String × ℕ)) (info : SessionInfo)
    → In info (infos_of h l)
    → (k : String) × (p : ℕ) × In (k, p) l × (info ≡ load h p)
unfolding infos_of
In-infos_of h [] info m = absurd m
In-infos_of h ((k, p) ∷ l) info (inl e) = (k, p, inl refl, e)
In-infos_of h ((k, p) ∷ l) info (inr m) =
    let (k', p', m', e) = In-infos_of h l info m in (k', p', inr m', e)

infos_of-In :
    (h : Heap SessionInfo) (l : List (String × ℕ)) (k : String) (p : ℕ)
    → In (k, p) l
    → In (load h p) (infos_of h l)
unfolding infos_of
infos_of-In h [] k p m = absurd m
infos_of-In h ((j, q) ∷ l) k p (inl e) = inl (ground arith)
infos_of-In h ((j, q) ∷ l) k p (inr m) = inr (infos_of-In h l k p m)

-- In every reachable state All returns just the records that Get returns.
pub all_sessions-iff-get_session :
    {sm : SessionManager} (info : SessionInfo)
    → Reach sm
    → (In info (all_sessions sm) → get_session sm info.session_id ≡ some info)
      × ((k : String) → get_session sm k ≡ some info → In info (all_sessions sm))
unfolding all_sessions get_session
all_sessions-iff-get_session {sm} info r = (
  λ m.
      let (k, p, b, e) = In-infos_of sm.infos (bindings sm.sessions) info m in
      ground (arith, (Reach-IsConsistent r).sessions_in k p, get-In-bindings sm.sessions k p b),
  λ k h.
      let (p, found, e) = get_session-pointer sm k info h in
      rw e (infos_of-In sm.infos (bindings sm.sessions) k p (In-bindings sm.sessions k p found)),
)

abbrev pub IsPageOf : String → SessionInfo → Type 0
IsPageOf frame_id info = (info.frame_id ≡ frame_id) × (info.type ≡ "page")

first_page-some :
    (f : String) (l : List SessionInfo) (info : SessionInfo)
    → first_page f l ≡ some info
    → In info l × IsPageOf f info
unfolding first_page
first_page-some f [] info h = cc
first_page-some f (i ∷ l) info h = ground (arith, first_page-some f l info)

first_page-none :
    (f : String) (l : List SessionInfo) (info : SessionInfo)
    → first_page f l ≡ none
    → In info l
    → ¬ IsPageOf f info
unfolding first_page
first_page-none f [] info h m = absurd m
first_page-none f (i ∷ l) info h m = ground (arith, first_page-none f l info)

-- In every reachable state GetByFrameID returns a page session that is registered and has the
-- frame, and it returns none only if no registered page session has the frame.
pub get_by_frame_id-exact :
    {sm : SessionManager} (f k : String) (info : SessionInfo)
    → Reach sm
    → (get_by_frame_id sm f ≡ some info
        → (get_session sm info.session_id ≡ some info) × IsPageOf f info)
      × (get_by_frame_id sm f ≡ none → get_session sm k ≡ some info → ¬ IsPageOf f info)
unfolding get_by_frame_id all_sessions
get_by_frame_id-exact {sm} f k info r =
    let all = all_sessions-iff-get_session info r in
    let l = infos_of sm.infos (bindings sm.sessions) in
    (
      λ h. let (m, page) = first_page-some f l info h in (all.0 m, page),
      λ h found. first_page-none f l info h (all.1 k found),
    )

abbrev HasContext : String → List SessionInfo → Type 0
HasContext c [] = ⊥
HasContext c (info ∷ l) = (info.browser_context_id ≡ c) ⊎ HasContext c l

HasContext-of_In :
    (c : String) (l : List SessionInfo) (info : SessionInfo)
    → In info l
    → info.browser_context_id ≡ c
    → HasContext c l
HasContext-of_In c [] info m e = absurd m
HasContext-of_In c (i ∷ l) info m e = ground (arith, HasContext-of_In c l info)

In-of_HasContext :
    (c : String) (l : List SessionInfo)
    → HasContext c l
    → (info : SessionInfo) × In info l × (info.browser_context_id ≡ c)
In-of_HasContext c [] h = absurd h
In-of_HasContext c (i ∷ l) (inl e) = (i, inl refl, e)
In-of_HasContext c (i ∷ l) (inr h) = let (info, m, e) = In-of_HasContext c l h in (info, inr m, e)

-- What the loop of `GetBrowserContexts` keeps: `seen` holds just the entries of `result`.
record Collecting (seen : Dict String Bool) (result : List String) : Type 0 where
  listed : (c : String) → is_some (get seen c) ≡ true → In c result
  marked : (c : String) → In c result → is_some (get seen c) ≡ true
  named : ¬ In "" result
  distinct : Distinct result

collect-step :
    (seen : Dict String Bool) (result : List String) (c : String)
    → c ≢ ""
    → get seen c ≡ none
    → Collecting seen result
    → Collecting (put seen c true) (result ++ c ∷ [])
collect-step seen result c named fresh i = record {
  listed = λ j. rw get-put (
      ground
        (arith, i.listed j, In-append_left j result (c ∷ []), In-append_right j result (c ∷ [])));
  marked = λ j m. rw get-put (ground (arith, i.marked j, In-append j result (c ∷ []) m));
  named = λ m. ground (arith, i.named, In-append "" result (c ∷ []) m);
  distinct = Distinct-append_one result c i.distinct (λ m. cc (i.marked c m, fresh));
}

record Collected (result : List String) (l : List SessionInfo) (out : List String) : Type 0 where
  from : (c : String) → In c out → In c result ⊎ HasContext c l
  kept : (c : String) → In c result → In c out
  found : (c : String) → c ≢ "" → HasContext c l → In c out
  named : ¬ In "" out
  distinct : Distinct out

Collected-added :
    (info : SessionInfo) (l : List SessionInfo) (result out : List String)
    → Collected (result ++ info.browser_context_id ∷ []) l out
    → Collected result (info ∷ l) out
Collected-added info l result out d =
    let c = info.browser_context_id in
    record {
      from = λ j m. ground (arith, d.from j m, In-append j result (c ∷ []));
      kept = λ j m. d.kept j (In-append_left j result (c ∷ []) m);
      found = λ j n h. ground (arith, d.found j n, d.kept j, In-append_right j result (c ∷ []));
      named = d.named;
      distinct = d.distinct;
    }

Collected-skipped :
    (info : SessionInfo) (l : List SessionInfo) (result out : List String)
    → (info.browser_context_id ≡ "") ⊎ In info.browser_context_id result
    → Collected result l out
    → Collected result (info ∷ l) out
Collected-skipped info l result out why d = record {
  from = λ j m. ground (arith, d.from j m);
  kept = d.kept;
  found = λ j n h. ground (arith, d.found j n, d.kept j);
  named = d.named;
  distinct = d.distinct;
}

collect-Collected :
    (seen : Dict String Bool) (result : List String) (l : List SessionInfo)
    → Collecting seen result
    → Collected result l (collect_contexts seen result l)
unfolding collect_contexts
collect-Collected seen result [] i = record {
  from = λ j m. inl m;
  kept = λ j m. m;
  found = λ j n h. absurd h;
  named = i.named;
  distinct = i.distinct;
}
collect-Collected seen result (info ∷ l) i =
    let c = info.browser_context_id in
    elim (Bool-cases (not (c == "") && not (is_some (get seen c)))) [
      | inl e ↦ rw e (
          Collected-added info l _ _ (
            collect-Collected (put seen c true) (result ++ c ∷ []) l
              (collect-step seen result c (ground arith) (ground arith) i)))
      | inr e ↦ rw e (
          Collected-skipped info l _ _ (ground (arith, i.listed c))
            (collect-Collected seen result l i))
    ]

empty-Collecting : Collecting empty []
empty-Collecting = record {
  listed = λ c h. cc (get-empty {V = Bool} c, h);
  marked = λ c m. absurd m;
  named = λ m. m;
  distinct = tt;
}

-- In every reachable state GetBrowserContexts lists each context id of a registered session,
-- once, and nothing else: the empty id is left out.
pub get_browser_contexts-exact :
    {sm : SessionManager} (c : String)
    → Reach sm
    → Distinct (get_browser_contexts sm)
      × (In c (get_browser_contexts sm)
          → (c ≢ "")
            × ((info : SessionInfo) × (get_session sm info.session_id ≡ some info)
                × (info.browser_context_id ≡ c)))
      × ((k : String) (info : SessionInfo)
          → get_session sm k ≡ some info
          → info.browser_context_id ≡ c
          → c ≢ ""
          → In c (get_browser_contexts sm))
unfolding get_browser_contexts all_sessions
get_browser_contexts-exact {sm} c r =
    let l = infos_of sm.infos (bindings sm.sessions) in
    let d = collect-Collected empty [] l empty-Collecting in
    (
      d.distinct,
      λ m.
          let (info, i, e) = In-of_HasContext c l (has_context (d.from c m)) in
          (λ e. d.named (rw e at m), (info, (all_sessions-iff-get_session info r).0 i, e)),
      λ k info h e n.
          d.found c n (HasContext-of_In c l info ((all_sessions-iff-get_session info r).1 k h) e),
    )
  where
    has_context : {P : Type 0} → ⊥ ⊎ P → P
    has_context (inl b) = absurd b
    has_context (inr h) = h

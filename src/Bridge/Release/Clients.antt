-- ===== src/Bridge/Release/Clients.antt =====
-- pkg/bridge/bridge.go: `ConnectionClosed` closes every page of the client.
use foxbridge.Common.{
  ℕ, String, ◌≡◌, ◌≢◌, ap, sym, ◌∙◌, subst⁻¹, inl, inr, Bool, true, false, List, [], ◌∷◌, none,
  some, arith, string_key, nat_key, Bool-cases, In,
}
use foxbridge.Dict.{get}
use foxbridge.Heap.{load, load-store}
use foxbridge.Cdp.Message.{Message}
use foxbridge.Cdp.Session.{get_session}
use foxbridge.Cdp.Session.{remove as remove_session}
use foxbridge.Bridge.Ownership.{Registry, TargetRecord}
use foxbridge.Bridge.Ownership.Cleanup.{begin_cleanup, remove, close_connection}
use foxbridge.Bridge.Ownership.Requests.{clear_requests}
use foxbridge.Bridge.Ownership.Closed.{gone}
use foxbridge.Bridge.Ownership.Closing.{owned_by, disowned, close_connection-records}
use foxbridge.Bridge.State.{State, Env}
use foxbridge.Bridge.Release.{
  clear_record_state, drop_record, close_record, close_records, connection_closed,
}
use foxbridge.Bridge.Release.Forgets.{
  close_record-begun, released, close_record-Forgets, disable_fetch-IsQuiet,
  get_session-remove_keeps,
}
use foxbridge.Bridge.Release.Once.{close_record-not_begun, close_record-cleaned, cleaned-refused}

begin_cleanup-other :
    (r : Registry) (p q : ℕ)
    → p ≢ q
    → load (begin_cleanup r (some p)).0.records q ≡ load r.records q
unfolding begin_cleanup
begin_cleanup-other r p q n = grind (arith, load-store)

remove-other :
    (r : Registry) (p q : ℕ) → p ≢ q → load (remove r (some p)).records q ≡ load r.records q
unfolding remove
remove-other r p q n = grind (arith, load-store)

begin_cleanup-by_record :
    (a b : Registry) (q : ℕ)
    → load a.records q ≡ load b.records q
    → (begin_cleanup a (some q)).1 ≡ (begin_cleanup b (some q)).1
unfolding begin_cleanup
begin_cleanup-by_record a b q e = ground arith

closing-ready :
    (r : Registry) (q : ℕ) (t : TargetRecord)
    → load r.records q ≡ disowned t
    → t.cleaned ≡ false
    → ((load r.records q).page_session_id ≡ t.page_session_id)
      × ((begin_cleanup r (some q)).1 ≡ true)
unfolding begin_cleanup
closing-ready r q t e c = (rw e, ground arith)

module _ {Regexp B : Type 0} (env : Env B) where
  released-other :
      (s : State Regexp B) (p q : ℕ) (x : B) (l : List (ℕ × Message))
      → p ≢ q
      → load (released env s (begin_cleanup s.ownership (some p)).0 p x l).ownership.records q
        ≡ load s.ownership.records q
  unfolding drop_record clear_record_state clear_requests
  released-other s p q x l n =
      let r = (begin_cleanup s.ownership (some p)).0 in
      remove-other (clear_requests r (load r.records p).page_session_id) p q n
      ∙ begin_cleanup-other s.ownership p q n

  close_record-other :
      (s : State Regexp B) (p q : ℕ) (b : Bool)
      → p ≢ q
      → load (close_record env s p b).ownership.records q ≡ load s.ownership.records q
  close_record-other s p q b n = elim (Bool-cases (begin_cleanup s.ownership (some p)).1) [
    | inr h ↦ rw (close_record-not_begun env s p b h)
    | inl h ↦
        let s' = close_record env s p b in
        subst⁻¹ (λ (x : State Regexp B). load x.ownership.records q ≡ load s.ownership.records q)
          (close_record-begun env s p b h) (released-other s p q s'.backend s'.sent n)
  ]

  released-keeps_none :
      (s : State Regexp B) (r : Registry) (p : ℕ) (x : B) (l : List (ℕ × Message)) (k : String)
      → get_session s.sessions k ≡ none
      → get_session (released env s r p x l).sessions k ≡ none
  unfolding drop_record clear_record_state
  released-keeps_none s r p x l k h =
      let t = load r.records p in
      get_session-remove_keeps (remove_session s.sessions t.page_session_id) t.tab_session_id k
        (get_session-remove_keeps s.sessions t.page_session_id k h)

  close_record-keeps_none :
      (s : State Regexp B) (p : ℕ) (b : Bool) (k : String)
      → get_session s.sessions k ≡ none
      → get_session (close_record env s p b).sessions k ≡ none
  close_record-keeps_none s p b k n = elim (Bool-cases (begin_cleanup s.ownership (some p)).1) [
    | inr h ↦ rw (close_record-not_begun env s p b h) n
    | inl h ↦
        let s' = close_record env s p b in
        subst⁻¹ (λ (x : State Regexp B). get_session x.sessions k ≡ none)
          (close_record-begun env s p b h)
          (released-keeps_none s (begin_cleanup s.ownership (some p)).0 p s'.backend s'.sent k n)
  ]

  module _ (q : ℕ) (k : String) where
    abbrev IsReady : State Regexp B → Type 0
    IsReady s =
        ((load s.ownership.records q).page_session_id ≡ k)
        × ((begin_cleanup s.ownership (some q)).1 ≡ true)

    -- The page has been closed, and its session is gone.
    abbrev pub IsReleased : State Regexp B → Type 0
    IsReleased s = ((load s.ownership.records q).cleaned ≡ true) × (get_session s.sessions k ≡ none)

    close_record-IsReleased :
        (s : State Regexp B) (b : Bool) → IsReady s → IsReleased (close_record env s q b)
    close_record-IsReleased s b (i, h) =
        let (f, m, n) = close_record-Forgets env s q b h in
        (close_record-cleaned env s q b h, rw i at m)

    close_record-keeps_IsReleased :
        (s : State Regexp B) (p : ℕ) (b : Bool) → IsReleased s → IsReleased (close_record env s p b)
    close_record-keeps_IsReleased s p b (c, n) = elim (nat_key.decide_eq p q) [
      | yes e ↦
          subst⁻¹ (λ x. IsReleased (close_record env s x b)) e
            (subst⁻¹ IsReleased (close_record-not_begun env s q b (cleaned-refused s.ownership q c))
              (c, n))
      | no d ↦ (
        ap (λ (t : TargetRecord). t.cleaned) (close_record-other s p q b d) ∙ c,
        close_record-keeps_none s p b k n,
      )
    ]

    close_record-keeps_IsReady :
        (s : State Regexp B) (p : ℕ) (b : Bool)
        → p ≢ q
        → IsReady s
        → IsReady (close_record env s p b)
    close_record-keeps_IsReady s p b d (i, h) =
        let o = close_record-other s p q b d in
        (
          ap (λ (t : TargetRecord). t.page_session_id) o ∙ i,
          begin_cleanup-by_record (close_record env s p b).ownership s.ownership q o ∙ h,
        )

    close_records-keeps_IsReleased :
        (s : State Regexp B) (l : List ℕ) → IsReleased s → IsReleased (close_records env s l)
    unfolding close_records
    close_records-keeps_IsReleased s [] h = h
    close_records-keeps_IsReleased s (p ∷ l) h =
        close_records-keeps_IsReleased (close_record env s p true) l
          (close_record-keeps_IsReleased s p true h)

    close_records-IsReleased :
        (s : State Regexp B) (l : List ℕ) → In q l → IsReady s → IsReleased (close_records env s l)
    unfolding close_records
    close_records-IsReleased s [] m h = absurd m
    close_records-IsReleased s (p ∷ l) m h = elim (nat_key.decide_eq p q) [
      | yes e ↦ close_records-keeps_IsReleased (close_record env s p true) l (
          subst⁻¹ (λ x. IsReleased (close_record env s x true)) e
            (close_record-IsReleased s true h))
      | no d ↦
          close_records-IsReleased (close_record env s p true) l (later m d)
            (close_record-keeps_IsReady s p true d h)
    ]
      where
        later : In q (p ∷ l) → p ≢ q → In q l
        later (inl e) d = absurd (d (sym e))
        later (inr m) d = m

  -- When a client's connection is closed for the first time, every page that the client owns is
  -- released: its record is cleaned up, and the session of the page is no longer registered.
  pub connection_closed-IsReleased :
      (s : State Regexp B) (c : ℕ) (t : String) (p : ℕ)
      → gone s.ownership.connections c ≡ false
      → get s.ownership.targets t ≡ some p
      → owned_by c (load s.ownership.records p) ≡ true
      → (load s.ownership.records p).cleaned ≡ false
      → IsReleased p (load s.ownership.records p).page_session_id (connection_closed env s (some c))
  unfolding connection_closed
  connection_closed-IsReleased s c t p live at owned dirty =
      let (r, l) = close_connection s.ownership (some c) in
      let (d, mine, others) = close_connection-records s.ownership c t p live at in
      let (m, e) = mine owned in
      let k = (load s.ownership.records p).page_session_id in
      let s' = close_records env (record s { ownership = r }) l in
      subst⁻¹ (IsReleased p k) (disable_fetch-IsQuiet env s') (
        close_records-IsReleased p k (record s { ownership = r }) l m
          (closing-ready r p (load s.ownership.records p) e dirty))

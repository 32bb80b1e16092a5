-- ===== src/Bridge/Ownership/Closing.antt =====
-- pkg/bridge/ownership.go: what `closeConnection` does to the pages, the claims and the browser
-- sessions of the connection, and only to those.
use foxbridge.Common.{
  ℕ, String, ◌≡◌, refl, sym, subst⁻¹, ◌∙◌, ◌≢◌, ◌⊎◌, Option, inl, inr, Bool, true, false, not, ◌&&◌,
  List, [], ◌∷◌, ◌++◌, none, some, arith, nat_key, string_key, ◌==◌, if◌then◌else◌, is_some,
  Bool-cases, Option-cases, In, In-append, In-append_left, In-append_right, Distinct,
  Distinct-append_one,
}
use foxbridge.Dict.{Dict, get, put, empty, bindings, get-put, get-empty, get-delete_where}
use foxbridge.Dict.Loops.{In-bindings, get-In-bindings}
use foxbridge.Heap.{Heap, load, store, load-store}
use foxbridge.Bridge.Ownership.{
  Registry, ConnectionState, TargetRecord, PendingCreate, target_closing, same, is_open,
}
use foxbridge.Bridge.Ownership.Connections.{zero_state}
use foxbridge.Bridge.Ownership.Closed.{gone}
use foxbridge.Bridge.Ownership.Cleanup.{close_connection, close_open, disown, doom_claims}

-- The record is open and belongs to the connection.
abbrev pub owned_by : ℕ → TargetRecord → Bool
owned_by conn t = same t.owner (some conn) && is_open t.state

abbrev pub disowned : TargetRecord → TargetRecord
disowned t = record t { owner = none; state = target_closing }

abbrev Visits : ℕ → List (String × ℕ) → Type 0
Visits q [] = ⊥
Visits q ((k, p) ∷ l) = (p ≡ q) ⊎ Visits q l

Visits-of_In : (k : String) (q : ℕ) (l : List (String × ℕ)) → In (k, q) l → Visits q l
Visits-of_In k q [] m = absurd m
Visits-of_In k q ((j, p) ∷ l) m = ground (arith, Visits-of_In k q l)

module _ (conn : ℕ) where
  abbrev taken : Dict ℕ Bool → Heap TargetRecord → ℕ → Bool
  taken seen h p =
      same (load h p).owner (some conn) && not (is_some (get seen p)) && is_open (load h p).state

  disown-taken :
      (seen : Dict ℕ Bool) (h : Heap TargetRecord) (out : List ℕ) (k : String) (p : ℕ)
      (l : List (String × ℕ))
      → taken seen h p ≡ true
      → disown conn seen h out ((k, p) ∷ l)
        ≡ disown conn (put seen p true) (store h p (disowned (load h p))) (out ++ p ∷ []) l
  unfolding disown
  disown-taken seen h out k p l e = rw (e, disown)

  disown-passed :
      (seen : Dict ℕ Bool) (h : Heap TargetRecord) (out : List ℕ) (k : String) (p : ℕ)
      (l : List (String × ℕ))
      → taken seen h p ≡ false
      → disown conn seen h out ((k, p) ∷ l) ≡ disown conn seen h out l
  unfolding disown
  disown-passed seen h out k p l e = rw (e, disown)

  -- A record that is seen, or not the connection's, is passed over.
  disown_skipped :
      (seen : Dict ℕ Bool) (h : Heap TargetRecord) (out : List ℕ) (l : List (String × ℕ)) (q : ℕ)
      → (is_some (get seen q) ≡ true) ⊎ (owned_by conn (load h q) ≡ false)
      → (load (disown conn seen h out l).0 q ≡ load h q)
        × (In q (disown conn seen h out l).1 → In q out)
  unfolding disown
  disown_skipped seen h out [] q why = (refl, λ m. m)
  disown_skipped seen h out ((k, p) ∷ l) q why = elim (Bool-cases (taken seen h p)) [
    | inl e ↦ rw (disown-taken seen h out k p l e) (
        ground (
          arith,
          disown_skipped (put seen p true) (store h p (disowned (load h p))) (out ++ p ∷ []) l q,
          get-put seen p true q,
          load-store h p (disowned (load h p)) q,
          In-append q out (p ∷ []),
        ))
    | inr e ↦ rw (disown-passed seen h out k p l e) (disown_skipped seen h out l q why)
  ]

  disown_kept :
      (seen : Dict ℕ Bool) (h : Heap TargetRecord) (out : List ℕ) (l : List (String × ℕ)) (q : ℕ)
      → In q out
      → In q (disown conn seen h out l).1
  unfolding disown
  disown_kept seen h out [] q m = m
  disown_kept seen h out ((k, p) ∷ l) q m = elim (Bool-cases (taken seen h p)) [
    | inl e ↦ rw (disown-taken seen h out k p l e) (
        disown_kept (put seen p true) (store h p (disowned (load h p))) (out ++ p ∷ []) l q
          (In-append_left q out (p ∷ []) m))
    | inr e ↦ rw (disown-passed seen h out k p l e) (disown_kept seen h out l q m)
  ]

  -- A record of the connection that the loop has not seen is disowned and listed.
  disown_visited :
      (seen : Dict ℕ Bool) (h : Heap TargetRecord) (out : List ℕ) (l : List (String × ℕ)) (q : ℕ)
      → Visits q l
      → owned_by conn (load h q) ≡ true
      → is_some (get seen q) ≡ false
      → (load (disown conn seen h out l).0 q ≡ disowned (load h q))
        × In q (disown conn seen h out l).1
  disown_visited seen h out [] q v owned new = absurd v
  disown_visited seen h out ((k, p) ∷ l) q v owned new = elim (Bool-cases (taken seen h p)) [
    | inl e ↦ rw (disown-taken seen h out k p l e) (
        ground (
          arith,
          disown_skipped (put seen p true) (store h p (disowned (load h p))) (out ++ p ∷ []) l q,
          disown_visited (put seen p true) (store h p (disowned (load h p))) (out ++ p ∷ []) l q,
          disown_kept (put seen p true) (store h p (disowned (load h p))) (out ++ p ∷ []) l q,
          get-put seen p true q,
          load-store h p (disowned (load h p)) q,
          In-append_right q out (p ∷ []),
        ))
    | inr e ↦ rw (disown-passed seen h out k p l e) (ground (arith, disown_visited seen h out l q))
  ]

  disown-Distinct :
      (seen : Dict ℕ Bool) (h : Heap TargetRecord) (out : List ℕ) (l : List (String × ℕ))
      → ((q : ℕ) → In q out → is_some (get seen q) ≡ true)
      → Distinct out
      → Distinct (disown conn seen h out l).1
  unfolding disown
  disown-Distinct seen h out [] marked d = d
  disown-Distinct seen h out ((k, p) ∷ l) marked d = elim (Bool-cases (taken seen h p)) [
    | inl e ↦ rw (disown-taken seen h out k p l e) (
        disown-Distinct (put seen p true) (store h p (disowned (load h p))) (out ++ p ∷ []) l
          (λ q m. ground (arith, get-put seen p true q, marked q, In-append q out (p ∷ []) m))
          (Distinct-append_one out p d (λ m. ground (arith, marked p m))))
    | inr e ↦ rw (disown-passed seen h out k p l e) (disown-Distinct seen h out l marked d)
  ]

  doom_claims_kept :
      (cancelled : Dict String Bool) (l : List (String × PendingCreate)) (j : String)
      → get cancelled j ≡ some true
      → get (doom_claims conn cancelled l) j ≡ some true
  unfolding doom_claims
  doom_claims_kept cancelled [] j h = h
  doom_claims_kept cancelled ((k, claim) ∷ l) j h = ground (
    arith,
    doom_claims_kept (if same claim.owner (some conn) then put cancelled k true else cancelled) l j,
    get-put cancelled k true j,
  )

  doom_claims_untouched :
      (cancelled : Dict String Bool) (l : List (String × PendingCreate)) (j : String)
      → ((claim : PendingCreate) → In (j, claim) l → same claim.owner (some conn) ≡ false)
      → get (doom_claims conn cancelled l) j ≡ get cancelled j
  unfolding doom_claims
  doom_claims_untouched cancelled [] j h = refl
  doom_claims_untouched cancelled ((k, claim) ∷ l) j h = ground (
    arith,
    doom_claims_untouched (if same claim.owner (some conn) then put cancelled k true else cancelled)
        l j (λ other m. h other (inr m)),
    get-put cancelled k true j,
    h claim,
  )

  doom_claims_doomed :
      (cancelled : Dict String Bool) (l : List (String × PendingCreate)) (j : String)
      (claim : PendingCreate)
      → In (j, claim) l
      → same claim.owner (some conn) ≡ true
      → get (doom_claims conn cancelled l) j ≡ some true
  unfolding doom_claims
  doom_claims_doomed cancelled [] j claim m e = absurd m
  doom_claims_doomed cancelled ((k, other) ∷ l) j claim m e =
      let cancelled' = if same other.owner (some conn) then put cancelled k true else cancelled in
      ground (
        arith,
        doom_claims_kept cancelled' l j,
        doom_claims_doomed cancelled' l j claim,
        get-put cancelled k true j,
      )

some-ne-none : {claim : PendingCreate} → some claim ≢ none
some-ne-none e = cc

-- The first call for a connection runs the loops. Before them it may make a state.
close_connection_first {ℓ} :
    (r : Registry) (c : ℕ) (P : Registry × List ℕ → Type ℓ)
    → gone r.connections c ≡ false
    → ((d : Dict ℕ ConnectionState) → P (close_open (record r { connections = d }) c))
    → P (close_connection r (some c))
unfolding close_connection
close_connection_first r c P live h = elim (Option-cases (get r.connections c)) [
  | inl e ↦
      rw (e)
        (rw (get-put r.connections c zero_state c) (rw self (h (put r.connections c zero_state))))
  | inr (s, e) ↦ rw e (rw (e, open_state s e) (h r.connections))
]
  where
    self : (c == c) ≡ true
    self = ground arith

    open_state : (s : ConnectionState) → get r.connections c ≡ some s → s.closed ≡ false
    open_state s e = ground arith

-- The first call of `closeConnection` for a connection hands over for closing exactly the open
-- records of the connection that a target id leads to, each once. It disowns them and marks them
-- as closing, and leaves every other record as it was.
pub close_connection-records :
    (r : Registry) (c : ℕ) (t : String) (p : ℕ)
    → gone r.connections c ≡ false
    → get r.targets t ≡ some p
    → let r' = (close_connection r (some c)).0 in
      let handed_over = (close_connection r (some c)).1 in
      Distinct handed_over
      × (owned_by c (load r.records p) ≡ true
          → In p handed_over × (load r'.records p ≡ disowned (load r.records p)))
      × (owned_by c (load r.records p) ≡ false
          → (¬ In p handed_over) × (load r'.records p ≡ load r.records p))
unfolding close_open
close_connection-records r c t p live at =
    close_connection_first r c
      (λ x.
        Distinct x.1
        × (owned_by c (load r.records p) ≡ true
            → In p x.1 × (load x.0.records p ≡ disowned (load r.records p)))
        × (owned_by c (load r.records p) ≡ false
            → (¬ In p x.1) × (load x.0.records p ≡ load r.records p)))
      live
      (λ d. (
        disown-Distinct c empty r.records [] (bindings r.targets) (λ q m. absurd m) tt,
        λ owned.
            let (l, m) =
              disown_visited c empty r.records [] (bindings r.targets) p
                (Visits-of_In t p (bindings r.targets) (In-bindings r.targets t p at)) owned
                (rw get-empty) in
            (m, l),
        λ other.
            let (l, m) = disown_skipped c empty r.records [] (bindings r.targets) p (inr other) in
            (m, l),
      ))

-- What is left of an entry for a connection, when those of `c` are dropped.
abbrev pub unless_of {ℓ} : {V : Type ℓ} → (V → Bool) → Option V → Option V
unless_of own none = none
unless_of own (some v) = if own v then none else some v

abbrev pub is_claim_of : ℕ → PendingCreate → Bool
is_claim_of c claim = same claim.owner (some c)

-- The target of a claim of `c` is doomed; any other is doomed if it was.
abbrev pub doomed : ℕ → Option PendingCreate → Option Bool → Option Bool
doomed c none before = before
doomed c (some claim) before = if is_claim_of c claim then some true else before

doom_claims-doomed :
    (c : ℕ) (cancelled : Dict String Bool) (claims : Dict String PendingCreate) (j : String)
    → get (doom_claims c cancelled (bindings claims)) j ≡ doomed c (get claims j) (get cancelled j)
doom_claims-doomed c cancelled claims j = elim (Option-cases (get claims j)) [
  | inl n ↦ rw n (
      doom_claims_untouched c cancelled (bindings claims) j
        (λ other m. absurd (some-ne-none (sym (get-In-bindings claims j other m) ∙ n))))
  | inr (claim, e) ↦ elim (Bool-cases (is_claim_of c claim)) [
    | inl own ↦
        rw (e, own)
          (doom_claims_doomed c cancelled (bindings claims) j claim (In-bindings claims j claim e)
            own)
    | inr foreign ↦
        rw (e, foreign)
          (doom_claims_untouched c cancelled (bindings claims) j (λ other m.
            let same : claim ≡ other = cc (sym e ∙ get-In-bindings claims j other m) in
            subst⁻¹ (λ (x : PendingCreate). is_claim_of c x ≡ false) (sym same) foreign))
  ]
]

-- The first call of `closeConnection` for a connection drops its claims, its pending creations and
-- its browser sessions, dooms the targets that the claims wait for, and leaves the claims, the
-- pending creations, the browser sessions and the doomed targets of all others as they were.
pub close_connection-claims :
    (r : Registry) (c : ℕ)
    → gone r.connections c ≡ false
    → let r' = (close_connection r (some c)).0 in
      ((j : String) → get r'.claims j ≡ unless_of (is_claim_of c) (get r.claims j))
      × ((j : String)
          → get r'.cancelled_targets j ≡ doomed c (get r.claims j) (get r.cancelled_targets j))
      × ((g : ℕ) → get r'.pending g ≡ unless_of (is_claim_of c) (get r.pending g))
      × ((s : String)
          → get r'.browser_sessions s ≡ unless_of (λ d. d == c) (get r.browser_sessions s))
unfolding close_open
close_connection-claims r c live =
    close_connection_first r c
      (λ x.
        ((j : String) → get x.0.claims j ≡ unless_of (is_claim_of c) (get r.claims j))
        × ((j : String)
            → get x.0.cancelled_targets j ≡ doomed c (get r.claims j) (get r.cancelled_targets j))
        × ((g : ℕ) → get x.0.pending g ≡ unless_of (is_claim_of c) (get r.pending g))
        × ((s : String)
            → get x.0.browser_sessions s ≡ unless_of (λ d. d == c) (get r.browser_sessions s)))
      live
      (λ d. (
        λ j. rw get-delete_where (ground arith),
        λ j. doom_claims-doomed c r.cancelled_targets r.claims j,
        λ g. rw get-delete_where (ground arith),
        λ s. rw get-delete_where (ground arith),
      ))

-- ===== src/Bridge/Ownership/Evolution/Methods.antt =====
-- pkg/bridge/ownership.go: each method, as it bears on the record behind one pointer.
use foxbridge.Common.{
  ℕ, ◌<◌, String, ◌≡◌, inl, inr, Bool, true, false, not, ◌&&◌, List, [], ◌∷◌, ◌++◌, Option, none,
  some, arith, nat_key, string_key, ◌==◌, if◌then◌else◌, is_some, Bool-cases, Option-cases,
}
use foxbridge.Dict.{Dict, empty, get, put, bindings}
use foxbridge.Heap.{Heap, load, store, alloc, load-store, load-alloc, next-store, next-alloc}
use foxbridge.Bridge.Ownership.{Registry, TargetRecord, PendingCreate, same, is_open, write_record}
use foxbridge.Bridge.Ownership.Connections.{state, state_locked, set_discover, set_auto_attach}
use foxbridge.Bridge.Ownership.Claims.{
  begin_create, finish_create, claim_target, claim_found, claim_record, expire_claim, cancel_target,
}
use foxbridge.Bridge.Ownership.Register.{
  register_pair, insert_pair, register_worker, register_browser_session, marked, resolve_claim,
  settle, settled, used_up,
}
use foxbridge.Bridge.Ownership.Requests.{set_request_owner, clear_request, clear_requests}
use foxbridge.Bridge.Ownership.Cleanup.{begin_cleanup, remove, close_connection, close_open, disown}
use foxbridge.Bridge.Ownership.Closing.{disowned}
use foxbridge.Bridge.Ownership.Steps.{
  Op, apply, run, states, sets_discover, sets_auto_attach, begins_create, finishes_create,
  claims_target, expires_claim, cancels_target, registers_pair, registers_worker,
  registers_browser_session, sets_request_owner, clears_request, clears_requests, begins_cleanup,
  removes, closes,
}

-- The ids of a record are fixed; it is cleaned, cancelled and taken out of use for good.
pub record Evolves (a b : TargetRecord) : Type 0 where
  pub page_target_id : b.page_target_id ≡ a.page_target_id
  pub tab_target_id : b.tab_target_id ≡ a.tab_target_id
  pub page_session_id : b.page_session_id ≡ a.page_session_id
  pub tab_session_id : b.tab_session_id ≡ a.tab_session_id
  pub juggler_session_id : b.juggler_session_id ≡ a.juggler_session_id
  pub pair : b.pair ≡ a.pair
  pub cleaned : a.cleaned ≡ true → b.cleaned ≡ true
  pub cancelled : a.cancelled ≡ true → b.cancelled ≡ true
  pub over : is_open a.state ≡ false → is_open b.state ≡ false

Evolves-refl : (a : TargetRecord) → Evolves a a
Evolves-refl a = ground arith

Evolves-trans : {a b c : TargetRecord} → Evolves a b → Evolves b c → Evolves a c
Evolves-trans x y = ground arith

-- The record behind a pointer that is in use evolves, and the pointer stays in use.
pub record Keeps (p : ℕ) (g h : Heap TargetRecord) : Type 0 where
  pub used : p < h.next
  pub evolves : Evolves (load g p) (load h p)

module _ (p : ℕ) where
  Keeps-refl : (h : Heap TargetRecord) → p < h.next → Keeps p h h
  Keeps-refl h u = record { used = u; evolves = Evolves-refl (load h p) }

  Keeps-trans : {f g h : Heap TargetRecord} → Keeps p f g → Keeps p g h → Keeps p f h
  Keeps-trans x y = record { used = y.used; evolves = Evolves-trans x.evolves y.evolves }

  Keeps-alloc : (h : Heap TargetRecord) (t : TargetRecord) → p < h.next → Keeps p h (alloc h t)
  Keeps-alloc h t u = record {
    used = ground (arith, next-alloc h t);
    evolves = rw (load-alloc h t p) (ground arith);
  }

  Keeps-store :
      (h : Heap TargetRecord) (q : ℕ) (t : TargetRecord)
      → p < h.next
      → Evolves (load h q) t
      → Keeps p h (store h q t)
  Keeps-store h q t u e = record {
    used = rw (next-store h q t) u;
    evolves = rw (load-store h q t p) (ground arith);
  }

  -- Both branches of a conditional keep the record.
  Keeps-if :
      {g : Heap TargetRecord} (b : Bool) (x y : Registry)
      → Keeps p g x.records
      → Keeps p g y.records
      → Keeps p g (if b then x else y).records
  Keeps-if true x y kx ky = kx
  Keeps-if false x y kx ky = ky

  Keeps-if_with :
      {A : Type 0} {g : Heap TargetRecord} (b : Bool) (x y : Registry × A)
      → Keeps p g x.0.records
      → Keeps p g y.0.records
      → Keeps p g (if b then x else y).0.records
  Keeps-if_with true x y kx ky = kx
  Keeps-if_with false x y kx ky = ky

  Keeps-state_locked :
      (r : Registry) (c : ℕ) → p < r.records.next → Keeps p r.records (state_locked r c).records
  unfolding state_locked
  Keeps-state_locked r c u = elim (Option-cases (get r.connections c)) [
    | inl e ↦ rw e (Keeps-refl r.records u)
    | inr (s, e) ↦ rw e (Keeps-refl r.records u)
  ]

  Keeps-state :
      (r : Registry) (conn : Option ℕ)
      → p < r.records.next
      → Keeps p r.records (state r conn).records
  unfolding state
  Keeps-state r none u = Keeps-refl r.records u
  Keeps-state r (some c) u = Keeps-state_locked r c u

  Keeps-claim_record :
      (r : Registry) (claim : PendingCreate) (cancelled : Bool) (q : ℕ)
      → p < r.records.next
      → Keeps p r.records (claim_record r claim cancelled q).records
  unfolding claim_record
  Keeps-claim_record r claim true q u = Keeps-store r.records q _ u (ground arith)
  Keeps-claim_record r claim false q u =
      elim (Bool-cases
        (not (is_some (load r.records q).owner) && is_open (load r.records q).state)) [
          | inl e ↦
              let r' = write_record r q (λ t. record t { owner = claim.owner }) in
              let written = Keeps-store r.records q _ u (ground arith) in
              rw e (Keeps-trans written (Keeps-state r' claim.owner written.used))
          | inr e ↦ rw e (Keeps-refl r.records u)
        ]

  Keeps-disown :
      (conn : ℕ) (seen : Dict ℕ Bool) (h : Heap TargetRecord) (out : List ℕ) (l : List (String × ℕ))
      → p < h.next
      → Keeps p h (disown conn seen h out l).0
  unfolding disown
  Keeps-disown conn seen h out [] u = Keeps-refl h u
  Keeps-disown conn seen h out ((k, q) ∷ l) u =
      let t = load h q in
      elim (Bool-cases
        (same t.owner (some conn) && not (is_some (get seen q)) && is_open t.state)) [
          | inl e ↦
              let written = Keeps-store h q (disowned t) u (ground arith) in
              rw (e, disown)
                (Keeps-trans written (
                  Keeps-disown conn (put seen q true) (store h q (disowned t)) (out ++ q ∷ []) l
                    written.used))
          | inr e ↦ rw (e, disown) (Keeps-disown conn seen h out l u)
        ]

  Keeps-settle :
      (r : Registry) (opener : Option ℕ) (t : String)
      → p < r.records.next
      → Keeps p r.records (settle r opener t).0.records
  unfolding settle settled used_up
  Keeps-settle r opener t u =
      let (owner, cancelled) =
        resolve_claim r opener (marked (get r.cancelled_targets t)) (get r.claims t) in
      Keeps-if cancelled _ _ (Keeps-refl r.records u) (Keeps-state (used_up r t) owner u)

  Keeps-claim_found :
      (r : Registry) (t : String) (claim : PendingCreate) (cancelled : Bool) (found : Option ℕ)
      → p < r.records.next
      → Keeps p r.records (claim_found r t claim cancelled found).0.records
  unfolding claim_found
  Keeps-claim_found r t claim cancelled none u =
      Keeps-if cancelled _ _ (Keeps-refl r.records u) (Keeps-refl r.records u)
  Keeps-claim_found r t claim cancelled (some q) u = Keeps-claim_record r claim cancelled q u

  Keeps-close_connection :
      (r : Registry) (c : ℕ)
      → p < r.records.next
      → Keeps p r.records (close_connection r (some c)).0.records
  unfolding close_connection close_open
  Keeps-close_connection r c u =
      let made = Keeps-state_locked r c u in
      let r' = state_locked r c in
      Keeps-if_with _ _ _ made
        (Keeps-trans made (Keeps-disown c empty r'.records [] (bindings r'.targets) made.used))

  Keeps-expire_claim :
      (r : Registry) (t : String) (g : ℕ)
      → p < r.records.next
      → Keeps p r.records (expire_claim r t g).0.records
  unfolding expire_claim
  Keeps-expire_claim r t g u = elim (Option-cases (get r.claims t)) [
    | inl e ↦ rw e (Keeps-refl r.records u)
    | inr (claim, e) ↦ rw e (
        Keeps-if_with (claim.generation == g) _ _ (Keeps-refl r.records u) (Keeps-refl r.records u))
  ]

  Keeps-cancel_target :
      (r : Registry) (t : String)
      → p < r.records.next
      → Keeps p r.records (cancel_target r t).0.records
  unfolding cancel_target
  Keeps-cancel_target r t u = elim (Option-cases (get r.targets t)) [
    | inl e ↦ rw e (Keeps-if_with (t == "") _ _ (Keeps-refl r.records u) (Keeps-refl r.records u))
    | inr (q, e) ↦ rw e (
        Keeps-if_with (t == "") _ _ (Keeps-refl r.records u)
          (Keeps-store r.records q _ u (ground arith)))
  ]

  pub Keeps-apply :
      (r : Registry) (op : Op) → p < r.records.next → Keeps p r.records (apply r op).records
  unfolding apply
  Keeps-apply r (states conn) u = Keeps-state r conn u
  Keeps-apply r (sets_discover none on) u = unfold set_discover in Keeps-refl r.records u
  Keeps-apply r (sets_discover (some c) on) u = unfold set_discover in Keeps-state_locked r c u
  Keeps-apply r (sets_auto_attach none on) u = unfold set_auto_attach in Keeps-refl r.records u
  Keeps-apply r (sets_auto_attach (some c) on) u =
      unfold set_auto_attach in Keeps-state_locked r c u
  Keeps-apply r (begins_create conn) u = unfold begin_create in Keeps-state r conn u
  Keeps-apply r (finishes_create g) u = unfold finish_create in Keeps-refl r.records u
  Keeps-apply r (claims_target conn t g) u =
      unfold claim_target in
      Keeps-if_with (t == "") _ _ (Keeps-refl r.records u) (Keeps-claim_found r t _ _ _ u)
  Keeps-apply r (expires_claim t g) u = Keeps-expire_claim r t g u
  Keeps-apply r (cancels_target t) u = Keeps-cancel_target r t u
  Keeps-apply r (registers_pair opener pair ids) u =
      unfold register_pair insert_pair in
      (let s = Keeps-settle r opener ids.page_target_id u in Keeps-trans s (Keeps-alloc _ _ s.used))
  Keeps-apply r (registers_worker opener t s j) u =
      unfold register_worker in
      (let s = Keeps-settle r opener t u in Keeps-trans s (Keeps-alloc _ _ s.used))
  Keeps-apply r (registers_browser_session none s) u =
      unfold register_browser_session in Keeps-refl r.records u
  Keeps-apply r (registers_browser_session (some c) s) u =
      unfold register_browser_session in
      Keeps-if (s == "") _ _ (Keeps-refl r.records u) (Keeps-state_locked r c u)
  Keeps-apply r (sets_request_owner id s) u =
      unfold set_request_owner in Keeps-if _ _ _ (Keeps-refl r.records u) (Keeps-refl r.records u)
  Keeps-apply r (clears_request id) u =
      unfold clear_request in Keeps-if _ _ _ (Keeps-refl r.records u) (Keeps-refl r.records u)
  Keeps-apply r (clears_requests s) u = unfold clear_requests in Keeps-refl r.records u
  Keeps-apply r (begins_cleanup none) u = unfold begin_cleanup in Keeps-refl r.records u
  Keeps-apply r (begins_cleanup (some q)) u =
      unfold begin_cleanup in
      Keeps-if_with _ _ _ (Keeps-refl r.records u) (Keeps-store r.records q _ u (ground arith))
  Keeps-apply r (removes none) u = unfold remove in Keeps-refl r.records u
  Keeps-apply r (removes (some q)) u = unfold remove in Keeps-store r.records q _ u (ground arith)
  Keeps-apply r (closes none) u = unfold close_connection in Keeps-refl r.records u
  Keeps-apply r (closes (some c)) u = Keeps-close_connection r c u

  pub Keeps-run :
      (r : Registry) (ops : List Op) → p < r.records.next → Keeps p r.records (run r ops).records
  unfolding run
  Keeps-run r [] u = Keeps-refl r.records u
  Keeps-run r (op ∷ ops) u =
      let k = Keeps-apply r op u in Keeps-trans k (Keeps-run (apply r op) ops k.used)

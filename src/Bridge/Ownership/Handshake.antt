-- ===== src/Bridge/Ownership/Handshake.antt =====
-- pkg/bridge/ownership.go: the reply to Browser.newPage and the event Browser.attachedToTarget
-- race. `claimTarget` and `registerPair` meet in the registry, whichever comes first.
use foxbridge.Common.{
  ℕ, String, ◌≡◌, refl, sym, ap, ◌∙◌, ◌≢◌, inl, inr, Bool, true, false, Option, none, some, arith,
  nat_key, string_key, ◌==◌, if◌then◌else◌, Bool-cases, Option-cases,
}
use foxbridge.Dict.{get, put, dict_laws, get-put}
use foxbridge.Heap.{store, load, heap_laws, load-store, load-alloc}
use foxbridge.Bridge.Ownership.{Registry, PairIds, TargetRecord, PendingCreate}
use foxbridge.Bridge.Ownership.Connections.{state, state_locked, connection_closed_locked}
use foxbridge.Bridge.Ownership.Claims.{
  claim_target, claim_found, claim_absent, claim_record, pending_or,
}
use foxbridge.Bridge.Ownership.Register.{
  register_pair, insert_pair, settle, settled, used_up, marked, pair_record,
}
use foxbridge.Bridge.Ownership.Queries.{owner_for_target, live_owner}

-- No lookup in the registry tells the two apart, and the next generation is the same.
pub record Alike (a b : Registry) : Type 0 where
  pub targets : (j : String) → get a.targets j ≡ get b.targets j
  pub sessions : (j : String) → get a.sessions j ≡ get b.sessions j
  pub browser_sessions : (j : String) → get a.browser_sessions j ≡ get b.browser_sessions j
  pub connections : (d : ℕ) → get a.connections d ≡ get b.connections d
  pub claims : (j : String) → get a.claims j ≡ get b.claims j
  pub cancelled_targets : (j : String) → get a.cancelled_targets j ≡ get b.cancelled_targets j
  pub records : (p : ℕ) → load a.records p ≡ load b.records p
  pub pending : (g : ℕ) → get a.pending g ≡ get b.pending g
  pub request_owners : (j : String) → get a.request_owners j ≡ get b.request_owners j
  pub next_generation : a.next_generation ≡ b.next_generation

-- The cases of the two methods as equations.
settle_claimed :
    (r : Registry) (opener : Option ℕ) (t : String) (claim : PendingCreate) (cancelled : Bool)
    → get r.claims t ≡ some claim
    → connection_closed_locked r claim.owner ≡ cancelled
    → settle r opener t ≡ settled r t claim.owner cancelled
unfolding settle
settle_claimed r opener t claim cancelled e h = rw (e, h)

settle_unclaimed :
    (r : Registry) (opener : Option ℕ) (t : String)
    → get r.claims t ≡ none
    → settle r opener t ≡ settled r t opener (marked (get r.cancelled_targets t))
unfolding settle
settle_unclaimed r opener t e = rw e

state_live :
    (r : Registry) (conn : Option ℕ) → connection_closed_locked r conn ≡ false → state r conn ≡ r
unfolding state state_locked connection_closed_locked
state_live r none h = refl
state_live r (some c) h = elim (Option-cases (get r.connections c)) [
  | inl e ↦ ground arith
  | inr (s, e) ↦ rw e
]

module _ (r : Registry) (conn : Option ℕ) (t : String) (g : ℕ) (real : t ≢ "") where
  abbrev claim : PendingCreate
  claim = pending_or (get r.pending g) conn g

  claim_target_lem :
      (cancelled : Bool) (found : Option ℕ)
      → connection_closed_locked r claim.owner ≡ cancelled
      → get r.targets t ≡ found
      → claim_target r conn t g ≡ claim_found r t claim cancelled found
  unfolding claim_target
  claim_target_lem cancelled found e h = rw (nonempty, e, h)
    where
      nonempty : (t == "") ≡ false
      nonempty = ground arith

module _ {a b : Registry} (same : Alike a b) where
  connection_closed_locked-Alike :
      (conn : Option ℕ) → connection_closed_locked a conn ≡ connection_closed_locked b conn
  unfolding connection_closed_locked
  connection_closed_locked-Alike none = refl
  connection_closed_locked-Alike (some c) = ground (arith, same.connections c)

  live_owner-Alike : (x : TargetRecord) → live_owner a x ≡ live_owner b x
  live_owner-Alike x = rw (connection_closed_locked-Alike x.owner)

  owner_for_target-Alike : (j : String) → owner_for_target a j ≡ owner_for_target b j
  unfolding owner_for_target
  owner_for_target-Alike j = elim (Option-cases (get a.targets j)) [
    | inl e ↦ rw (e, sym (same.targets j) ∙ e)
    | inr (p, e) ↦
        rw (e, sym (same.targets j) ∙ e, same.records p) (live_owner-Alike (load b.records p))
  ]

module _ (r : Registry) (c : ℕ) (g pair : ℕ) (ids : PairIds)
    (claimed : (pending_or (get r.pending g) (some c) g).owner ≡ some c)
    (unseen : get r.targets ids.page_target_id ≡ none)
    (unclaimed : get r.claims ids.page_target_id ≡ none)
    (wanted : get r.cancelled_targets ids.page_target_id ≡ none)
    (real : ids.page_target_id ≢ "") where
  abbrev t : String
  t = ids.page_target_id

  abbrev own : PendingCreate
  own = pending_or (get r.pending g) (some c) g

  -- The registry after both calls, with the reply to newPage first. The owner of the opener that the
  -- attach event names, if any, is `opener`.
  abbrev reply_then_event : Option ℕ → Registry
  reply_then_event opener = (register_pair (claim_target r (some c) t g).0 opener pair ids).0

  abbrev reply_first : Registry
  reply_first = reply_then_event none

  -- The same with the attach event first, which names no opener that has an owner.
  abbrev event_first : Registry
  event_first = (claim_target (register_pair r none pair ids).0 (some c) t g).0

  self_text : (j : String) → (j == j) ≡ true
  self_text j = ground arith

  self : (r.records.next == r.records.next) ≡ true
  self = ground arith

  abbrev unowned : Registry
  unowned = insert_pair (used_up r t) none false pair ids

  event_registered : register_pair r none pair ids ≡ (unowned, r.records.next)
  unfolding register_pair settled
  event_registered =
      rw (settle_unclaimed r none t unclaimed) (rw wanted (unfold state used_up in refl))

  event_first-claim_record :
      (cancelled : Bool)
      → connection_closed_locked r (some c) ≡ cancelled
      → event_first ≡ claim_record unowned own cancelled r.records.next
  unfolding claim_found connection_closed_locked insert_pair used_up
  event_first-claim_record cancelled e =
      ap (λ (x : Registry × ℕ). (claim_target x.0 (some c) t g).0) event_registered
      ∙ ap (λ (x : Registry × Option ℕ). x.0)
          (claim_target_lem unowned (some c) t g real cancelled (some r.records.next) (rw claimed e)
            (rw get-put (rw get-put (ground arith))))

  -- The new record as the claim leaves it.
  abbrev claimed_record : Option ℕ → Bool → Registry
  claimed_record owner cancelled = record unowned {
    records = store unowned.records r.records.next (pair_record owner cancelled pair ids);
  }

  owner_claimed :
      (owner : Option ℕ) (cancelled : Bool)
      → owner_for_target (claimed_record owner cancelled) t
        ≡ live_owner (claimed_record owner cancelled) (pair_record owner cancelled pair ids)
  unfolding owner_for_target insert_pair used_up
  owner_claimed owner cancelled = rw (found, load-store, self)
    where
      found :
          get (put (put r.targets t r.records.next) ids.tab_target_id r.records.next) t
          ≡ some r.records.next
      found = rw get-put (rw get-put (ground arith))

  module _ (live : connection_closed_locked r (some c) ≡ false) where
    reply_first_live :
        (opener : Option ℕ)
        → reply_then_event opener
          ≡ insert_pair
              (used_up (record r { claims = put r.claims t own }) t)
              (some c)
              false
              pair
              ids
    unfolding register_pair claim_found claim_absent settled connection_closed_locked
    reply_first_live opener =
        rw (claim_target_lem r (some c) t g real false none (rw claimed live) unseen) (
          rw
            (settle_claimed (record r { claims = put r.claims t own }) opener t own false
              (rw get-put (ground arith)) (rw claimed live))
            (rw claimed (
              rw (
                state_live (used_up (record r { claims = put r.claims t own }) t) (some c)
                  (unfold used_up in live)))))

    event_first_live : event_first ≡ claimed_record (some c) false
    unfolding claim_record connection_closed_locked insert_pair used_up
    event_first_live =
        event_first-claim_record false live
        ∙ rw (load-alloc, self, claimed) (state_live (claimed_record (some c) false) (some c) live)

    Alike-live : Alike reply_first event_first
    unfolding insert_pair used_up
    Alike-live =
        rw (reply_first_live none, event_first_live)
          (record {
            targets = λ j. refl;
            sessions = λ j. refl;
            browser_sessions = λ j. refl;
            connections = λ d. refl;
            claims = λ j. simp dict_laws (ground arith);
            cancelled_targets = λ j. refl;
            records = λ p. simp heap_laws (ground arith);
            pending = λ g'. refl;
            request_owners = λ j. refl;
            next_generation = refl;
          })

  module _ (closed : connection_closed_locked r (some c) ≡ true) where
    reply_first_closed :
        (opener : Option ℕ)
        → reply_then_event opener
          ≡ insert_pair
              (used_up (record r { cancelled_targets = put r.cancelled_targets t true }) t)
              none
              true
              pair
              ids
    unfolding register_pair claim_found claim_absent settled connection_closed_locked
    reply_first_closed opener =
        rw (claim_target_lem r (some c) t g real true none (rw claimed closed) unseen) (
          rw
            (settle_unclaimed (record r { cancelled_targets = put r.cancelled_targets t true })
              opener t unclaimed)
            (rw (get-put r.cancelled_targets t true t) (rw (self_text t) refl)))

    event_first_closed : event_first ≡ claimed_record none true
    unfolding claim_record connection_closed_locked insert_pair used_up
    event_first_closed = event_first-claim_record true closed ∙ rw (load-alloc, self)

    Alike-closed : Alike reply_first event_first
    unfolding insert_pair used_up
    Alike-closed =
        rw (reply_first_closed none, event_first_closed)
          (record {
            targets = λ j. refl;
            sessions = λ j. refl;
            browser_sessions = λ j. refl;
            connections = λ d. refl;
            claims = λ j. refl;
            cancelled_targets = λ j. simp dict_laws (ground arith);
            records = λ p. simp heap_laws (ground arith);
            pending = λ g'. refl;
            request_owners = λ j. refl;
            next_generation = refl;
          })

  -- The reply to newPage and the attach event may come in either order. For a page that the
  -- registry has not seen, claimed or cancelled, whose creation the client `c` began, and whose
  -- attach event names no opener that has an owner, both orders leave the same registry, as far as
  -- lookups tell, whether or not `c` has been closed in the meantime.
  pub handshake_commutes : Alike reply_first event_first
  handshake_commutes = elim (Bool-cases (connection_closed_locked r (some c))) [
    | inl closed ↦ Alike-closed closed
    | inr live ↦ Alike-live live
  ]

  -- The opener of a claimed or doomed page does not count.
  reply_first-opener : (opener : Option ℕ) → reply_then_event opener ≡ reply_first
  reply_first-opener opener = elim (Bool-cases (connection_closed_locked r (some c))) [
    | inl closed ↦ reply_first_closed closed opener ∙ sym (reply_first_closed closed none)
    | inr live ↦ reply_first_live live opener ∙ sym (reply_first_live live none)
  ]

  -- For a page that the registry has not seen, claimed or cancelled, whose creation the client `c`
  -- began. If the reply to newPage comes first, then after the attach event, whatever opener that
  -- names, the page belongs to `c` if `c` is not closed, and to nobody if it is. So it does if the
  -- attach event comes first and names no opener that has an owner.
  pub handshake_owner :
      let owner = if connection_closed_locked r (some c) then none else some c in
      ((opener : Option ℕ) → owner_for_target (reply_then_event opener) t ≡ owner)
      × (owner_for_target event_first t ≡ owner)
  unfolding owner_for_target insert_pair used_up
  handshake_owner =
      let after =
        elim (Bool-cases (connection_closed_locked r (some c)))
          as (λ _.
            owner_for_target event_first t
            ≡ (if connection_closed_locked r (some c) then none else some c)) [
              | inl closed ↦ rw (event_first_closed closed, closed) (owner_claimed none true)
              | inr live ↦
                  rw (event_first_live live, live)
                    (owner_claimed (some c) false ∙ unfold connection_closed_locked in rw live)
            ] in
      (
        λ opener.
            ap (λ x. owner_for_target x t) (reply_first-opener opener)
            ∙ owner_for_target-Alike handshake_commutes t
            ∙ after,
        after,
      )

-- ===== src/Bridge/Ownership/Claims.antt =====
-- pkg/bridge/ownership.go: Target.createTarget announces a page, claims it, or gives it up.
use foxbridge.Common.{
  ℕ, ◌+◌, ◌%◌, ◌^◌, String, Bool, true, false, not, ◌&&◌, Option, none, some, nat_key, string_key,
  is_some, ◌==◌, if◌then◌else◌,
}
use foxbridge.Dict.{get, put, delete}
use foxbridge.Heap.{load}
use foxbridge.Bridge.Ownership.{PendingCreate, Registry, target_closing, write_record, is_open}
use foxbridge.Bridge.Ownership.Connections.{state, connection_closed_locked}

-- `nextGeneration` is a uint64.
unfoldable pub begin_create : Registry → Option ℕ → Registry × ℕ
begin_create r conn =
    let r' = state r conn in
    let generation = (r'.next_generation + 1) % 2 ^ 64 in
    (
      record r' {
        next_generation = generation;
        pending = put r'.pending generation (record { owner = conn; generation = generation });
      },
      generation,
    )

unfoldable pub finish_create : Registry → ℕ → Registry
finish_create r generation = record r { pending = delete r.pending generation }

abbrev pub pending_or : Option PendingCreate → Option ℕ → ℕ → PendingCreate
pending_or none conn generation = record { owner = conn; generation = generation }
pending_or (some claim) conn generation = claim

abbrev cancel_record : Registry → ℕ → Registry
cancel_record r p = write_record r p (λ t. record t { cancelled = true; state = target_closing })

-- The page was attached first: its record takes the owner of the claim.
unfoldable pub claim_record : Registry → PendingCreate → Bool → ℕ → Registry
claim_record r claim cancelled p =
    let t = load r.records p in
    if cancelled
    then cancel_record r p
    else if not (is_some t.owner) && is_open t.state
    then state (write_record r p (λ t. record t { owner = claim.owner })) claim.owner
    else r

-- The page is not attached yet: the claim waits for it, or dooms it.
unfoldable pub claim_absent : Registry → String → PendingCreate → Bool → Registry
claim_absent r target_id claim cancelled =
    if cancelled
    then record r { cancelled_targets = put r.cancelled_targets target_id true }
    else record r { claims = put r.claims target_id claim }

unfoldable pub claim_found :
    Registry → String → PendingCreate → Bool → Option ℕ → Registry × Option ℕ
unfolding claim_absent
claim_found r target_id claim cancelled none = (claim_absent r target_id claim cancelled, none)
claim_found r target_id claim cancelled (some p) = (claim_record r claim cancelled p, some p)

unfoldable pub claim_target : Registry → Option ℕ → String → ℕ → Registry × Option ℕ
unfolding claim_found connection_closed_locked
claim_target r conn target_id generation =
    if target_id == ""
    then (r, none)
    else let claim = pending_or (get r.pending generation) conn generation in
      claim_found r target_id claim (connection_closed_locked r claim.owner)
        (get r.targets target_id)

abbrev expire_found : Registry → String → ℕ → Option PendingCreate → Registry × Bool
expire_found r target_id generation none = (r, false)
expire_found r target_id generation (some claim) =
    if claim.generation == generation
    then (
      record r {
        claims = delete r.claims target_id;
        cancelled_targets = put r.cancelled_targets target_id true;
      },
      true,
    )
    else (r, false)

unfoldable pub expire_claim : Registry → String → ℕ → Registry × Bool
expire_claim r target_id generation = expire_found r target_id generation (get r.claims target_id)

abbrev cancel_found : Registry → Option ℕ → Registry × Option ℕ
cancel_found r none = (r, none)
cancel_found r (some p) = (cancel_record r p, some p)

unfoldable pub cancel_target : Registry → String → Registry × Option ℕ
cancel_target r target_id =
    if target_id == ""
    then (r, none)
    else cancel_found
        (record r {
          claims = delete r.claims target_id;
          cancelled_targets = put r.cancelled_targets target_id true;
        })
        (get r.targets target_id)

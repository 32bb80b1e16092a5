-- ===== src/Tests/Ownership.antt =====
-- pkg/bridge/ownership.go at concrete inputs: client 7 creates a page and goes away.
use foxbridge.Common.{
  ℕ, ◌<◌, String, ◌≡◌, refl, ◌≢◌, true, false, List, [], ◌∷◌, Option, none, some, arith, string_key,
  nat_key, string_discrete, ℕ_discrete, differ, if◌then◌else◌, ◌==◌, In, Distinct,
}
use foxbridge.Dict.{empty, get, put, delete}
use foxbridge.Heap.{nothing, load, store, alloc}
use foxbridge.Bridge.Ownership.{Registry, PairIds, new_ownership_registry}
use foxbridge.Bridge.Ownership.Connections.{
  state, state_locked, connection_closed_locked, discover_enabled, auto_attach_enabled,
}
use foxbridge.Bridge.Ownership.Claims.{
  begin_create, claim_target, claim_absent, claim_found, claim_record, pending_or,
}
use foxbridge.Bridge.Ownership.Register.{register_pair, insert_pair, settle, settled, used_up}
use foxbridge.Bridge.Ownership.Queries.{owner_for_target, session_owned}
use foxbridge.Bridge.Ownership.Cleanup.{begin_cleanup, close_connection}
use foxbridge.Bridge.Ownership.Steps.{
  Op, run, states, registers_pair, begins_cleanup, claims_target,
}
use foxbridge.Bridge.Ownership.Closed.{close_connection_final, gone}
use foxbridge.Bridge.Ownership.Handshake.{Alike, handshake_commutes, handshake_owner}
use foxbridge.Bridge.Ownership.Closing.{
  unless_of, is_claim_of, doomed, owned_by, disowned, close_connection-records,
  close_connection-claims,
}
use foxbridge.Bridge.Ownership.Evolution.{Evolves, run-Evolves, begin_cleanup_once}

abbrev ids : PairIds
ids = record {
  tab_session_id = "ts";
  tab_target_id = "tt";
  page_session_id = "ps";
  page_target_id = "pt";
  juggler_session_id = "js";
}

abbrev creating : Registry
creating = (begin_create new_ownership_registry (some 7)).0

abbrev claimed : Registry
claimed = (claim_target creating (some 7) "pt" 1).0

abbrev attached : Registry
attached = (register_pair claimed none 3 ids).0

abbrev later : List Op
later =
    states (some 7)
    ∷ claims_target (some 7) "pt" 1
    ∷ registers_pair (some 7) 4 ids
    ∷ begins_cleanup (some 0)
    ∷ []

creating_owner : (pending_or (get creating.pending 1) (some 7) 1).owner ≡ some 7
unfolding begin_create state state_locked new_ownership_registry get put empty string_discrete
    ℕ_discrete
creating_owner = refl

unseen : get creating.targets "pt" ≡ none
unfolding begin_create state state_locked new_ownership_registry get put empty string_discrete
    ℕ_discrete
unseen = refl

unclaimed : get creating.claims "pt" ≡ none
unfolding begin_create state state_locked new_ownership_registry get put empty string_discrete
    ℕ_discrete
unclaimed = refl

wanted : get creating.cancelled_targets "pt" ≡ none
unfolding begin_create state state_locked new_ownership_registry get put empty string_discrete
    ℕ_discrete
wanted = refl

page_named : ◌≢◌ {A = String} "pt" ""
unfolding string_discrete
page_named = differ {K = String} "pt" "" refl

session_named : ◌≢◌ {A = String} "ps" ""
unfolding string_discrete
session_named = differ {K = String} "ps" "" refl

handshake_commutes_example :
    Alike
      (register_pair claimed none 3 ids).0
      (claim_target (register_pair creating none 3 ids).0 (some 7) "pt" 1).0
handshake_commutes_example =
    handshake_commutes creating 7 1 3 ids creating_owner unseen unclaimed wanted page_named

close_connection_final_example :
    let r' = run (close_connection attached (some 7)).0 later in
    (session_owned r' (some 7) "ps" ≡ false)
    × (owner_for_target r' "pt" ≢ some 7)
    × (discover_enabled r' (some 7) ≡ false)
    × (auto_attach_enabled r' (some 7) ≡ false)
close_connection_final_example = close_connection_final 7 attached later "ps" "pt" session_named

handshake_owner_example :
    let owner : Option ℕ = if connection_closed_locked creating (some 7) then none else some 7 in
    ((opener : Option ℕ) → owner_for_target (register_pair claimed opener 3 ids).0 "pt" ≡ owner)
    × (owner_for_target (claim_target (register_pair creating none 3 ids).0 (some 7) "pt" 1).0 "pt"
        ≡ owner)
handshake_owner_example =
    handshake_owner creating 7 1 3 ids creating_owner unseen unclaimed wanted page_named

attached_live : gone attached.connections 7 ≡ false
unfolding register_pair insert_pair settle settled used_up claim_target claim_absent claim_found
    claim_record begin_create state state_locked new_ownership_registry connection_closed_locked get
    put delete empty nothing load store alloc string_discrete ℕ_discrete
attached_live = refl

attached_target : get attached.targets "pt" ≡ some 0
unfolding register_pair insert_pair settle settled used_up claim_target claim_absent claim_found
    claim_record begin_create state state_locked new_ownership_registry connection_closed_locked get
    put delete empty nothing load store alloc string_discrete ℕ_discrete
attached_target = refl

attached_record : 0 < attached.records.next
unfolding register_pair insert_pair settle settled used_up claim_target claim_absent claim_found
    claim_record begin_create state state_locked new_ownership_registry connection_closed_locked get
    put delete empty nothing load store alloc string_discrete ℕ_discrete
attached_record = omega arith

close_connection-records_example :
    let r' = (close_connection attached (some 7)).0 in
    let handed_over = (close_connection attached (some 7)).1 in
    Distinct handed_over
    × (owned_by 7 (load attached.records 0) ≡ true
        → In 0 handed_over × (load r'.records 0 ≡ disowned (load attached.records 0)))
    × (owned_by 7 (load attached.records 0) ≡ false
        → (¬ In 0 handed_over) × (load r'.records 0 ≡ load attached.records 0))
close_connection-records_example =
    close_connection-records attached 7 "pt" 0 attached_live attached_target

claimed_live : gone claimed.connections 7 ≡ false
unfolding register_pair insert_pair settle settled used_up claim_target claim_absent claim_found
    claim_record begin_create state state_locked new_ownership_registry connection_closed_locked get
    put delete empty nothing load store alloc string_discrete ℕ_discrete
claimed_live = refl

close_connection-claims_example :
    let r' = (close_connection claimed (some 7)).0 in
    ((j : String) → get r'.claims j ≡ unless_of (is_claim_of 7) (get claimed.claims j))
    × ((j : String)
        → get r'.cancelled_targets j
          ≡ doomed 7 (get claimed.claims j) (get claimed.cancelled_targets j))
    × ((g : ℕ) → get r'.pending g ≡ unless_of (is_claim_of 7) (get claimed.pending g))
    × ((s : String)
        → get r'.browser_sessions s ≡ unless_of (λ d. d == 7) (get claimed.browser_sessions s))
close_connection-claims_example = close_connection-claims claimed 7 claimed_live

run-Evolves_example : Evolves (load attached.records 0) (load (run attached later).records 0)
run-Evolves_example = run-Evolves attached later 0 attached_record

first_cleanup : (begin_cleanup attached (some 0)).1 ≡ true
unfolding register_pair insert_pair settle settled used_up claim_target claim_absent claim_found
    claim_record begin_create state state_locked new_ownership_registry connection_closed_locked get
    put delete empty nothing load store alloc string_discrete ℕ_discrete begin_cleanup
first_cleanup = refl

begin_cleanup_once_example :
    (begin_cleanup (run (begin_cleanup attached (some 0)).0 later) (some 0)).1 ≡ false
begin_cleanup_once_example = begin_cleanup_once attached later 0 attached_record first_cleanup

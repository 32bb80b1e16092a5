-- ===== src/Tests/Bridge.antt =====
-- pkg/bridge at concrete inputs: client 7 has opened a page, which goes away.
use foxbridge.Common.{
  ℕ, ◌+◌, String, ◌≡◌, refl, ◌≢◌, true, false, [], ◌∷◌, ◌++◌, none, some, string_key, nat_key,
  string_discrete, ℕ_discrete, differ, if◌then◌else◌,
}
use foxbridge.Dict.{empty, get, put, delete}
use foxbridge.Heap.{nothing, load, store, alloc}
use foxbridge.Bridge.Ownership.{Registry, PairIds, new_ownership_registry}
use foxbridge.Bridge.Ownership.Connections.{state, state_locked, connection_closed_locked}
use foxbridge.Bridge.Ownership.Claims.{
  begin_create, claim_target, claim_absent, claim_found, claim_record,
}
use foxbridge.Bridge.Ownership.Register.{register_pair, insert_pair, settle, settled, used_up}
use foxbridge.Bridge.Ownership.Queries.{owner_for_target, record_for_target}
use foxbridge.Bridge.Ownership.Cleanup.{begin_cleanup}
use foxbridge.Bridge.Ownership.Closed.{gone}
use foxbridge.Bridge.Ownership.Closing.{owned_by}
use foxbridge.Bridge.Fetch.Handler.{returned}
use foxbridge.Bridge.State.{State, Env, TargetPair, new_bridge}
use foxbridge.Bridge.Release.{close_record, connection_closed}
use foxbridge.Bridge.Release.Forgets.{Forgets}
use foxbridge.Bridge.Release.Once.{close_record_twice, close_record-sent, farewell}
use foxbridge.Bridge.Release.Clients.{connection_closed-IsReleased, IsReleased}
use foxbridge.Bridge.Attach.Announce.{
  publish_owned_pair, emit_page_attach_on_session, emit_auto_attach_pair, attached_params,
}
use foxbridge.Bridge.Attach.Once.{emit_page_attach-told_once}
use foxbridge.Bridge.Attach.Arrivals.{event, publish_owned_pair-told, created, attached}

abbrev ids : PairIds
ids = record {
  tab_session_id = "ts";
  tab_target_id = "tt";
  page_session_id = "ps";
  page_target_id = "pt";
  juggler_session_id = "js";
}

abbrev claimed : Registry
claimed = (claim_target (begin_create new_ownership_registry (some 7)).0 (some 7) "pt" 1).0

abbrev registered : Registry
registered = (register_pair claimed none 0 ids).0

abbrev page : TargetPair
page = record {
  ids = ids;
  browser_ctx_id = "c1";
  url = "";
  page_attached_root = false;
  page_attached_tab = false;
}

abbrev pub env : Env ℕ
env = record {
  call = λ b k method params. (b + 1, returned "{}");
  marshal = λ json. "{}";
  decode_payload = λ params. some (record { target_id = ""; info_target_id = "pt"; frame_id = "" });
  uuid = λ n. "u";
  decimal = λ n. "n";
}

abbrev pub opened : State ℕ ℕ
opened = record (new_bridge 0) {
  ownership = registered;
  pair_cells = alloc (nothing page) page;
  pairs = put empty "js" 0;
}

is_live : gone opened.ownership.connections 7 ≡ false
unfolding register_pair insert_pair settle settled used_up claim_target claim_absent claim_found
    claim_record begin_create state state_locked new_ownership_registry connection_closed_locked get
    put delete empty nothing load store alloc string_discrete ℕ_discrete begin_cleanup new_bridge
    record_for_target owner_for_target
is_live = refl

is_target : get opened.ownership.targets "pt" ≡ some 0
unfolding register_pair insert_pair settle settled used_up claim_target claim_absent claim_found
    claim_record begin_create state state_locked new_ownership_registry connection_closed_locked get
    put delete empty nothing load store alloc string_discrete ℕ_discrete begin_cleanup new_bridge
    record_for_target owner_for_target
is_target = refl

is_owned : owned_by 7 (load opened.ownership.records 0) ≡ true
unfolding register_pair insert_pair settle settled used_up claim_target claim_absent claim_found
    claim_record begin_create state state_locked new_ownership_registry connection_closed_locked get
    put delete empty nothing load store alloc string_discrete ℕ_discrete begin_cleanup new_bridge
    record_for_target owner_for_target
is_owned = refl

is_uncleaned : (load opened.ownership.records 0).cleaned ≡ false
unfolding register_pair insert_pair settle settled used_up claim_target claim_absent claim_found
    claim_record begin_create state state_locked new_ownership_registry connection_closed_locked get
    put delete empty nothing load store alloc string_discrete ℕ_discrete begin_cleanup new_bridge
    record_for_target owner_for_target
is_uncleaned = refl

is_recorded :
    record_for_target opened.ownership (load opened.pair_cells 0).ids.page_target_id ≡ some 0
unfolding register_pair insert_pair settle settled used_up claim_target claim_absent claim_found
    claim_record begin_create state state_locked new_ownership_registry connection_closed_locked get
    put delete empty nothing load store alloc string_discrete ℕ_discrete begin_cleanup new_bridge
    record_for_target owner_for_target
is_recorded = refl

has_owner : (load opened.ownership.records 0).owner ≡ some 7
unfolding register_pair insert_pair settle settled used_up claim_target claim_absent claim_found
    claim_record begin_create state state_locked new_ownership_registry connection_closed_locked get
    put delete empty nothing load store alloc string_discrete ℕ_discrete begin_cleanup new_bridge
    record_for_target owner_for_target
has_owner = refl

is_kept : (load opened.ownership.records 0).cancelled ≡ false
unfolding register_pair insert_pair settle settled used_up claim_target claim_absent claim_found
    claim_record begin_create state state_locked new_ownership_registry connection_closed_locked get
    put delete empty nothing load store alloc string_discrete ℕ_discrete begin_cleanup new_bridge
    record_for_target owner_for_target
is_kept = refl

is_told : owner_for_target opened.ownership (load opened.pair_cells 0).ids.page_target_id ≡ some 7
unfolding register_pair insert_pair settle settled used_up claim_target claim_absent claim_found
    claim_record begin_create state state_locked new_ownership_registry connection_closed_locked get
    put delete empty nothing load store alloc string_discrete ℕ_discrete begin_cleanup new_bridge
    record_for_target owner_for_target
is_told = refl

is_new : (load opened.pair_cells 0).page_attached_root ≡ false
unfolding register_pair insert_pair settle settled used_up claim_target claim_absent claim_found
    claim_record begin_create state state_locked new_ownership_registry connection_closed_locked get
    put delete empty nothing load store alloc string_discrete ℕ_discrete begin_cleanup new_bridge
    record_for_target owner_for_target
is_new = refl

is_named : (load opened.pair_cells 0).ids.page_target_id ≢ ""
unfolding register_pair insert_pair settle settled used_up claim_target claim_absent claim_found
    claim_record begin_create state state_locked new_ownership_registry connection_closed_locked get
    put delete empty nothing load store alloc string_discrete ℕ_discrete begin_cleanup new_bridge
    record_for_target owner_for_target
is_named = differ {K = String} "pt" "" refl

close_record_twice_example :
    close_record env (close_record env opened 0 true) 0 false ≡ close_record env opened 0 true
close_record_twice_example = close_record_twice env opened 0 true false

close_record-sent_example :
    let t = load opened.ownership.records 0 in
    (close_record env opened 0 true).sent
    ≡ opened.sent
      ++ (if (begin_cleanup opened.ownership (some 0)).1
          then farewell env t.owner t.page_session_id t.page_target_id
          else [])
close_record-sent_example = close_record-sent env opened 0 true

connection_closed-IsReleased_example :
    IsReleased env 0
      (load opened.ownership.records 0).page_session_id
      (connection_closed env opened (some 7))
connection_closed-IsReleased_example =
    connection_closed-IsReleased env opened 7 "pt" 0 is_live is_target is_owned is_uncleaned

publish_owned_pair-told_example :
    (publish_owned_pair env opened 0).sent
    ≡ opened.sent ++ (created env opened 7 0 ++ attached env opened 7 0)
unfolding load alloc ℕ_discrete nothing
publish_owned_pair-told_example =
    publish_owned_pair-told env opened 0 0 7 is_named refl is_recorded has_owner is_kept is_told
      is_new

emit_page_attach-told_once_example :
    (emit_page_attach_on_session env (emit_auto_attach_pair env opened 0) 0 "ts").sent
    ≡ opened.sent
      ++ (7, event env "Target.attachedToTarget" (attached_params (load opened.pair_cells 0))) ∷ []
unfolding load alloc ℕ_discrete nothing
emit_page_attach-told_once_example =
    emit_page_attach-told_once env opened 0 7 "ts" is_named refl is_told is_new

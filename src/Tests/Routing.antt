-- ===== src/Tests/Routing.antt =====
-- pkg/bridge/bridge.go at concrete inputs: a page whose main frame moves, and an event for a client.
use foxbridge.Common.{
  String, ◌≡◌, ◌≢◌, refl, ◌⊎◌, false, Option, none, some, arith, string_key, nat_key,
  string_discrete, ℕ_discrete, differ,
}
use foxbridge.Dict.{empty, get, put, get-empty}
use foxbridge.Heap.{nothing, load, alloc}
use foxbridge.Cdp.Message.{pos, Message}
use foxbridge.Cdp.Session.{
  SessionInfo, SessionManager, new_session_manager, add, get_session, get_by_juggler_session,
  clone_found,
}
use foxbridge.Cdp.Session.Indices.{adds, apply, Reach, start, step}
use foxbridge.Bridge.Ownership.{Registry, new_ownership_registry}
use foxbridge.Bridge.Ownership.Connections.{connection_closed_locked, state_locked}
use foxbridge.Bridge.Ownership.Register.{register_browser_session}
use foxbridge.Bridge.Ownership.Queries.{session_owner}
use foxbridge.Bridge.Routing.{
  SubFrames, Payload, emit_event, owner_for_event, cdp_frame_id_for_session,
  juggler_frame_id_for_session, refresh_main_frame, is_sub_frame,
}
use foxbridge.Bridge.Routing.Events.{emit_event-owned}
use foxbridge.Bridge.Routing.Frames.{frame_ids-roundtrip, refresh_main_frame-current}

abbrev page_info : SessionInfo
page_info = record {
  session_id = "s1";
  juggler_session_id = "j1";
  target_id = "t1";
  browser_context_id = "c1";
  url = "about:blank";
  title = "";
  type = "page";
  frame_id = "f1";
}

abbrev one_page : SessionManager
one_page = apply new_session_manager (adds (some page_info))

one_page-Reach : Reach one_page
unfolding new_session_manager
one_page-Reach = step (adds (some page_info)) start (get-empty "s1")

abbrev no_frames : SubFrames
no_frames = empty

j_named : ◌≢◌ {A = String} "j1" ""
unfolding string_discrete
j_named = differ {K = String} _ _ refl

f_named : ◌≢◌ {A = String} "f2" ""
unfolding string_discrete
f_named = differ {K = String} _ _ refl

not_sub : is_sub_frame no_frames "j1" "f2" ≡ false
unfolding is_sub_frame get empty
not_sub = refl

found : get_by_juggler_session one_page "j1" ≡ some page_info
unfolding apply add get_by_juggler_session clone_found new_session_manager get put empty nothing
    load alloc string_discrete ℕ_discrete
found = refl

refresh_main_frame-current_example :
    get_by_juggler_session (refresh_main_frame no_frames one_page "j1" "f2") "j1"
    ≡ some (record page_info { frame_id = "f2" })
refresh_main_frame-current_example =
    refresh_main_frame-current no_frames "j1" "f2" page_info one_page-Reach j_named f_named not_sub
      found

one_page-s1 : get_session one_page "s1" ≡ some page_info
unfolding apply add get_session clone_found new_session_manager get put empty nothing load alloc
    string_discrete ℕ_discrete
one_page-s1 = refl

f_not_target : ◌≢◌ {A = String} "f1" "t1"
unfolding string_discrete
f_not_target = differ {K = String} _ _ refl

t_not_frame : ◌≢◌ {A = String} "t1" "f1"
unfolding string_discrete
t_not_frame = differ {K = String} _ _ refl

f1_named : ◌≢◌ {A = String} "f1" ""
unfolding string_discrete
f1_named = differ {K = String} _ _ refl

t1_named : ◌≢◌ {A = String} "t1" ""
unfolding string_discrete
t1_named = differ {K = String} _ _ refl

only_page : (info : SessionInfo) → get_session one_page "s1" ≡ some info → page_info ≡ info
only_page info e = ground (arith, one_page-s1)

frame_ids-roundtrip_example :
    (juggler_frame_id_for_session one_page "s1" (cdp_frame_id_for_session one_page "s1" "f1")
      ≡ "f1")
    × (cdp_frame_id_for_session one_page "s1" (juggler_frame_id_for_session one_page "s1" "t1")
        ≡ "t1")
frame_ids-roundtrip_example =
    frame_ids-roundtrip one_page "s1" "f1" "t1" f1_named t1_named
      (λ info e. let same = only_page info e in ground (arith, f_not_target))
      (λ info e. let same = only_page info e in ground (arith, t_not_frame))

abbrev attached : Registry
attached = register_browser_session new_ownership_registry (some 7) "b1"

abbrev decode : Option String → Option Payload
decode raw = none

abbrev event : Message
event = record {
  id = pos 0;
  method = "Target.targetCreated";
  params = none;
  result = none;
  error = none;
  session_id = "b1";
}

event_sent : emit_event decode one_page attached "Target.targetCreated" none "b1" ≡ some (7, event)
unfolding emit_event owner_for_event session_owner connection_closed_locked register_browser_session
    state_locked new_ownership_registry get put empty string_discrete ℕ_discrete
event_sent = refl

emit_event-owned_example :
    (connection_closed_locked attached (some 7) ≡ false)
    × ((◌≡◌ {A = String} "b1" "") ⊎ (session_owner attached "b1" ≡ some 7))
    × (event.session_id ≡ "b1")
emit_event-owned_example =
    emit_event-owned attached 7 decode one_page "Target.targetCreated" none "b1" event event_sent

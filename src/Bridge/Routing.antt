-- ===== src/Bridge/Routing.antt =====
-- pkg/bridge/bridge.go: frame ids of the two protocols, the owners of execution contexts, and the
-- client that an event is sent to. The decoding of an event's parameters is a parameter.
pub mod Frames
pub mod Events
use foxbridge.Common.{
  ℕ, String, Bool, true, false, not, ◌&&◌, ◌||◌, List, [], ◌∷◌, Option, none, some, string_key,
  nat_key, is_some, ◌==◌, if◌then◌else◌,
}
use foxbridge.Dict.{Dict, empty, get, put, delete, delete_where}
use foxbridge.Cdp.Message.{pos, Message}
use foxbridge.Cdp.Session.{
  SessionInfo, SessionManager, get_session, get_by_juggler_session, set_frame_id, all_sessions,
}
use foxbridge.Bridge.Ownership.{Registry}
use foxbridge.Bridge.Ownership.Queries.{owner_for_target, session_owner}

abbrev session_or : String → Option SessionInfo → String
session_or id none = id
session_or id (some info) = info.juggler_session_id

unfoldable pub resolve_session : SessionManager → String → String
resolve_session sm cdp_session_id =
    if cdp_session_id == "" then "" else session_or cdp_session_id (get_session sm cdp_session_id)

-- A page whose main frame is known under both protocols.
abbrev pub has_frame : SessionInfo → Bool
has_frame info = info.type == "page" && not (info.frame_id == "") && not (info.target_id == "")

-- `none` is a nil record.
unfoldable pub cdp_frame_id_for_info : Option SessionInfo → String → String
cdp_frame_id_for_info none frame_id = frame_id
cdp_frame_id_for_info (some info) frame_id =
    if frame_id == ""
    then frame_id
    else if has_frame info && frame_id == info.frame_id
    then info.target_id
    else frame_id

unfoldable pub cdp_frame_id_for_session : SessionManager → String → String → String
unfolding cdp_frame_id_for_info
cdp_frame_id_for_session sm cdp_session_id frame_id =
    if frame_id == ""
    then frame_id
    else cdp_frame_id_for_info (get_session sm cdp_session_id) frame_id

abbrev page_of : SessionManager → Option String → Option SessionInfo
page_of sm none = none
page_of sm (some page_session_id) = get_session sm page_session_id

-- `pair` is the page session of the pair that `autoAttach.pairs` has for the Juggler session.
unfoldable pub cdp_frame_id_for_juggler_session :
    SessionManager → Option String → String → String → String
unfolding cdp_frame_id_for_info
cdp_frame_id_for_juggler_session sm pair juggler_session_id frame_id =
    if frame_id == ""
    then frame_id
    else if is_some (get_by_juggler_session sm juggler_session_id)
    then cdp_frame_id_for_info (get_by_juggler_session sm juggler_session_id) frame_id
    else cdp_frame_id_for_info (page_of sm pair) frame_id

abbrev juggler_frame_id : Option SessionInfo → String → String
juggler_frame_id none frame_id = frame_id
juggler_frame_id (some info) frame_id =
    if has_frame info && frame_id == info.target_id then info.frame_id else frame_id

unfoldable pub juggler_frame_id_for_session : SessionManager → String → String → String
juggler_frame_id_for_session sm cdp_session_id frame_id =
    if frame_id == "" then frame_id else juggler_frame_id (get_session sm cdp_session_id) frame_id

-- The map `subFrames`.
abbrev pub SubFrames : Type 0
SubFrames = Dict String (Dict String Bool)

abbrev frames_of : SubFrames → String → Dict String Bool
frames_of d juggler_session_id = elim (get d juggler_session_id) [
  | none ↦ empty
  | some frames ↦ frames
]

unfoldable pub note_sub_frame : SubFrames → String → String → SubFrames
note_sub_frame d juggler_session_id frame_id =
    if juggler_session_id == "" || frame_id == ""
    then d
    else put d juggler_session_id (put (frames_of d juggler_session_id) frame_id true)

unfoldable pub forget_sub_frame : SubFrames → String → String → SubFrames
forget_sub_frame d juggler_session_id frame_id = elim (get d juggler_session_id) [
  | none ↦ d
  | some frames ↦ put d juggler_session_id (delete frames frame_id)
]

abbrev or_false : Option Bool → Bool
or_false none = false
or_false (some b) = b

unfoldable pub is_sub_frame : SubFrames → String → String → Bool
is_sub_frame d juggler_session_id frame_id =
    or_false (get (frames_of d juggler_session_id) frame_id)

abbrev refresh_found : SessionManager → String → Option SessionInfo → SessionManager
refresh_found sm frame_id none = sm
refresh_found sm frame_id (some info) =
    if info.frame_id == frame_id then sm else set_frame_id sm info.session_id frame_id

unfoldable pub refresh_main_frame : SubFrames → SessionManager → String → String → SessionManager
unfolding is_sub_frame
refresh_main_frame d sm juggler_session_id frame_id =
    if juggler_session_id == "" || frame_id == "" || is_sub_frame d juggler_session_id frame_id
    then sm
    else refresh_found sm frame_id (get_by_juggler_session sm juggler_session_id)

-- The loop of `sessionForFrame`, with its variable `found`. `none` is an ambiguous frame.
unfoldable pub scan_frames : Registry → String → String → List SessionInfo → Option String
scan_frames r frame_id found [] = if found == "" then none else some found
scan_frames r frame_id found (info ∷ l) =
    let skip =
      not (info.type == "page")
      || not (info.frame_id == frame_id)
      || not (is_some (owner_for_target r info.target_id)) in
    let rest = scan_frames r frame_id (if skip then found else info.session_id) l in
    if not skip && not (found == "") && not (found == info.session_id) then none else rest

unfoldable pub session_for_frame : SessionManager → Registry → String → Option String
unfolding scan_frames
session_for_frame sm r frame_id =
    if frame_id == "" then none else scan_frames r frame_id "" (all_sessions sm)

-- The fields of the parameters that `ownerForEvent` reads.
pub record Payload : Type 0 where
  pub target_id : String
  pub info_target_id : String
  pub frame_id : String

abbrev frame_owner : Registry → Option String → Option ℕ
frame_owner r none = none
frame_owner r (some session_id) = session_owner r session_id

abbrev payload_owner : SessionManager → Registry → Option Payload → Option ℕ
payload_owner sm r none = none
payload_owner sm r (some p) =
    if not (p.target_id == "")
    then owner_for_target r p.target_id
    else if not (p.info_target_id == "")
    then owner_for_target r p.info_target_id
    else frame_owner r (session_for_frame sm r p.frame_id)

module _ (decode : Option String → Option Payload) where
  unfoldable pub owner_for_event : SessionManager → Registry → Option String → String → Option ℕ
  unfolding session_for_frame
  owner_for_event sm r raw session_id =
      if not (session_id == "") then none else payload_owner sm r (decode raw)

  abbrev or_else : Option ℕ → Option ℕ → Option ℕ
  or_else none other = other
  or_else (some c) other = some c

  abbrev sent_to : Option ℕ → Message → Option (ℕ × Message)
  sent_to none msg = none
  sent_to (some c) msg = some (c, msg)

  -- The message that is sent, and to whom; there is none for an event that is dropped.
  unfoldable pub emit_event :
      SessionManager → Registry → String → Option String → String → Option (ℕ × Message)
  unfolding owner_for_event
  emit_event sm r method raw session_id =
      sent_to (or_else (session_owner r session_id) (owner_for_event sm r raw session_id)) (record {
        id = pos 0;
        method = method;
        params = raw;
        result = none;
        error = none;
        session_id = session_id;
      })

-- `ctxOwners` and `ctxUniqueOwners` have the session of a context.
unfoldable pub context_owned : Dict ℕ String → String → ℕ → Bool
context_owned owners session_id context_id = elim (get owners context_id) [
  | none ↦ true
  | some owner ↦ owner == session_id
]

unfoldable pub unique_context_owned : Dict String String → String → String → Bool
unique_context_owned owners session_id unique_id =
    if unique_id == ""
    then true
    else elim (get owners unique_id) [ none ↦ true | some owner ↦ owner == session_id ]

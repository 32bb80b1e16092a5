-- ===== src/Bridge/Routing/Frames.antt =====
-- pkg/bridge/bridge.go: the translation of frame ids, and the main frame that a session is known by.
use foxbridge.Common.{
  String, ◌≡◌, ◌≢◌, refl, true, false, Option, none, some, inl, inr, arith, string_key, nat_key,
  Option-cases,
}
use foxbridge.Dict.{get, dict_laws}
use foxbridge.Heap.{heap_laws}
use foxbridge.Cdp.Session.{
  SessionInfo, SessionManager, get_session, get_by_juggler_session, set_frame_id, write_found,
  clone_found,
}
use foxbridge.Cdp.Session.Indices.{Reach, Reach-IsConsistent}
use foxbridge.Bridge.Routing.{
  SubFrames, cdp_frame_id_for_session, cdp_frame_id_for_info, juggler_frame_id_for_session,
  juggler_frame_id, refresh_main_frame, is_sub_frame, note_sub_frame,
}

info_roundtrip :
    (info : Option SessionInfo) (f : String)
    → ((i : SessionInfo) → info ≡ some i → f ≢ i.target_id)
    → juggler_frame_id info (cdp_frame_id_for_info info f) ≡ f
unfolding cdp_frame_id_for_info
info_roundtrip none f h = refl
info_roundtrip (some i) f h = ground (arith, h i refl)

info_roundtrip_back :
    (info : Option SessionInfo) (g : String)
    → ((i : SessionInfo) → info ≡ some i → g ≢ i.frame_id)
    → cdp_frame_id_for_info info (juggler_frame_id info g) ≡ g
unfolding cdp_frame_id_for_info
info_roundtrip_back none g h = refl
info_roundtrip_back (some i) g h = ground (arith, h i refl)

-- A frame id `f` of Juggler's is translated for the client and back to itself, unless it is
-- spelled like the target id of the session. A frame id `g` of the client's is translated for
-- Juggler and back to itself, unless it is spelled like the main frame of the session.
pub frame_ids-roundtrip :
    (sm : SessionManager) (session_id f g : String)
    → f ≢ ""
    → g ≢ ""
    → ((info : SessionInfo) → get_session sm session_id ≡ some info → f ≢ info.target_id)
    → ((info : SessionInfo) → get_session sm session_id ≡ some info → g ≢ info.frame_id)
    → (juggler_frame_id_for_session sm session_id (cdp_frame_id_for_session sm session_id f) ≡ f)
      × (cdp_frame_id_for_session sm session_id (juggler_frame_id_for_session sm session_id g) ≡ g)
unfolding juggler_frame_id_for_session cdp_frame_id_for_session
frame_ids-roundtrip sm session_id f g m n h k =
    let a = info_roundtrip (get_session sm session_id) f h in
    let b = info_roundtrip_back (get_session sm session_id) g k in
    (ground (arith, a), ground (arith, b))

is_sub_frame-note :
    (d : SubFrames) (j f : String)
    → j ≢ ""
    → f ≢ ""
    → is_sub_frame (note_sub_frame d j f) j f ≡ true
unfolding is_sub_frame note_sub_frame
is_sub_frame-note d j f a b = grind (arith, dict_laws)

refresh-sub :
    (d : SubFrames) (sm : SessionManager) (j f : String)
    → is_sub_frame d j f ≡ true
    → refresh_main_frame d sm j f ≡ sm
unfolding refresh_main_frame
refresh-sub d sm j f h = ground arith

-- A frame that has been noted as a sub-frame of a session does not become its main frame.
pub refresh_main_frame-note_sub_frame :
    (d : SubFrames) (sm : SessionManager) (j f : String)
    → j ≢ ""
    → f ≢ ""
    → refresh_main_frame (note_sub_frame d j f) sm j f ≡ sm
refresh_main_frame-note_sub_frame d sm j f a b =
    refresh-sub (note_sub_frame d j f) sm j f (is_sub_frame-note d j f a b)

-- In every reachable state of the sessions, an event with a frame that is not a sub-frame makes it
-- the main frame of its Juggler session, and changes no other field of that session.
pub refresh_main_frame-current :
    (d : SubFrames) {sm : SessionManager} (j f : String) (info : SessionInfo)
    → Reach sm
    → j ≢ ""
    → f ≢ ""
    → is_sub_frame d j f ≡ false
    → get_by_juggler_session sm j ≡ some info
    → get_by_juggler_session (refresh_main_frame d sm j f) j ≡ some (record info { frame_id = f })
unfolding refresh_main_frame get_by_juggler_session set_frame_id write_found clone_found
refresh_main_frame-current d {sm} j f info reach a b n h =
    elim (Option-cases (get sm.juggler_sessions j)) [
      | inl e ↦ ground arith
      | inr (p, e) ↦ grind (arith, heap_laws, (Reach-IsConsistent reach).jugglers_in j p)
    ]

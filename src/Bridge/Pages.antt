-- ===== src/Bridge/Pages.antt =====
-- pkg/bridge/events.go: navigations, frames, dialogs and the console of a page. The parameters of an
-- event are decoded: those that do not decode reach none of these handlers.
pub mod Loaders
pub mod Frames
use Prim.Native.String.{◌++◌ as text_append, len, slice}
use foxbridge.Common.{
  ℕ, zero, suc, ◌-◌, ltb, String, Bool, true, false, not, ◌&&◌, List, [], ◌∷◌, ◌++◌, Option, none,
  some, ◌>>=◌, string_key, nat_key, ◌==◌, if◌then◌else◌, is_some,
}
use foxbridge.Dict.{get, put}
use foxbridge.Heap.{load, store}
use foxbridge.Cdp.Session.{
  SessionInfo, SessionManager, get_by_juggler_session, set_frame_id, update_url,
}
use foxbridge.Bridge.Json.{Json, str, flag, num, raw, object}
use foxbridge.Bridge.Routing.{refresh_main_frame, note_sub_frame, forget_sub_frame}
use foxbridge.Bridge.State.{
  State, Env, TargetPair, emit, clear_contexts_for_session, resolve_cdp_session, cdp_frame,
}

-- The parameters of Page.navigationCommitted that are read.
pub record Committed : Type 0 where
  pub frame_id : String
  pub url : String
  pub navigation_id : String

pub record DialogOpened : Type 0 where
  pub type : String
  pub message : String
  pub default_value : String
  pub dialog_id : String

abbrev pub lifecycle : String → String → String → Json
lifecycle frame_id loader_id name = object (
    ("frameId", str frame_id)
    ∷ ("loaderId", str loader_id)
    ∷ ("name", str name)
    ∷ ("timestamp", num 0)
    ∷ [])

abbrev pub navigated : String → String → String → Json
navigated frame_id url loader_id = object (
    (
      "frame",
      object (
          ("id", str frame_id)
          ∷ ("url", str url)
          ∷ ("loaderId", str loader_id)
          ∷ ("securityOrigin", str "")
          ∷ ("mimeType", str "text/html")
          ∷ ("domainAndRegistry", str "")
          ∷ []),
    )
    ∷ ("type", str "Navigation")
    ∷ [])

-- What encoding/json writes of bytes that are a part of a character, one for each.
broken : ℕ → String
broken zero = ""
broken (suc n) = text_append "�" (broken n)

-- The slice `jugglerSessionID[:8]` is one of bytes. It is out of range for a text of fewer bytes, and the program
-- stops there. A character that it cuts is as the client is told of it: the id is used in messages only.
unfoldable pub loader_of : String → String → Option String
unfolding broken
loader_of navigation_id juggler_session_id =
    let start = slice juggler_session_id 0 8 in
    if not (navigation_id == "")
    then some navigation_id
    else if ltb (len juggler_session_id) 8
    then none
    else some (text_append "loader-" (text_append start (broken (8 - len start))))

abbrev has_page : Option SessionInfo → Bool
has_page none = false
has_page (some info) = not (info.url == "") && not (info.url == "about:blank")

abbrev located : SessionManager → Option SessionInfo → String → SessionManager
located sm none url = sm
located sm (some info) url = update_url sm info.session_id url

abbrev pub or_unknown : Option String → String
or_unknown none = "loader-unknown"
or_unknown (some id) = if id == "" then "loader-unknown" else id

abbrev main_frame : SessionManager → Option SessionInfo → String → SessionManager
main_frame sm none frame_id = sm
main_frame sm (some info) frame_id = set_frame_id sm info.session_id frame_id

abbrev without_main : SessionManager → Option SessionInfo → String → SessionManager
without_main sm none frame_id = sm
without_main sm (some info) frame_id =
    if not (frame_id == "") && info.frame_id == frame_id
    then set_frame_id sm info.session_id ""
    else sm

module _ {Regexp B : Type 0} where
  -- The page of the session has the new address, and so has its pair.
  unfoldable pub record_url : State Regexp B → String → String → State Regexp B
  record_url s juggler_session_id url =
      let info = get_by_juggler_session s.sessions juggler_session_id in
      let s' = record s { sessions = located s.sessions info url } in
      elim (get s'.pairs juggler_session_id) [
        | none ↦ s'
        | some p ↦ record s' {
          pair_cells = store s'.pair_cells p (record (load s'.pair_cells p) { url = url });
        }
      ]

  -- A blank page that a page with an address passes through is not told of.
  unfoldable pub is_intermediate : State Regexp B → String → String → Bool
  is_intermediate s juggler_session_id url =
      url == "about:blank" && has_page (get_by_juggler_session s.sessions juggler_session_id)

  unfoldable pub refresh_frame : State Regexp B → String → String → State Regexp B
  refresh_frame s juggler_session_id frame_id = record s {
    sessions = refresh_main_frame s.sub_frames s.sessions juggler_session_id frame_id;
  }

  unfoldable pub loader_for : State Regexp B → String → String
  loader_for s session_id = or_unknown (get s.loader_map session_id)

  unfoldable pub navigation_started : State Regexp B → String → String → State Regexp B
  navigation_started s juggler_session_id frame_id = refresh_frame s juggler_session_id frame_id

  unfoldable pub note_attached : State Regexp B → String → String → String → State Regexp B
  note_attached s juggler_session_id frame_id parent_frame_id =
      if parent_frame_id == "" && not (frame_id == "")
      then record s {
        sessions =
            main_frame s.sessions (get_by_juggler_session s.sessions juggler_session_id) frame_id;
      }
      else if not (parent_frame_id == "")
      then record s { sub_frames = note_sub_frame s.sub_frames juggler_session_id frame_id }
      else s

  unfoldable pub forget_detached : State Regexp B → String → String → State Regexp B
  forget_detached s juggler_session_id frame_id = record s {
    sessions =
        without_main s.sessions (get_by_juggler_session s.sessions juggler_session_id) frame_id;
    sub_frames = forget_sub_frame s.sub_frames juggler_session_id frame_id;
  }

module _ {Regexp B : Type 0} (env : Env B) where
  unfoldable pub clear_for_navigation : Bool → State Regexp B → String → State Regexp B
  clear_for_navigation is_bidi s session_id =
      if is_bidi && not (session_id == "")
      then emit env (clear_contexts_for_session s session_id) "Runtime.executionContextsCleared"
          (object []) session_id
      else s

  unfoldable pub announce_navigation :
      State Regexp B → String → String → String → String → State Regexp B
  announce_navigation s session_id frame_id url loader_id =
      let s1 = record s { loader_map = put s.loader_map session_id loader_id } in
      let s2 = emit env s1 "Page.lifecycleEvent" (lifecycle frame_id loader_id "init") session_id in
      let s3 =
        emit env s2 "Page.lifecycleEvent" (lifecycle frame_id loader_id "commit") session_id in
      emit env s3 "Page.frameNavigated" (navigated frame_id url loader_id) session_id

  -- `none` is the panic of a slice out of range.
  unfoldable pub navigation_committed :
      Bool → State Regexp B → String → Committed → Option (State Regexp B)
  navigation_committed is_bidi s juggler_session_id ev =
      let s1 = refresh_frame s juggler_session_id ev.frame_id in
      let session_id = resolve_cdp_session s1 juggler_session_id in
      let frame_id = cdp_frame s1 juggler_session_id ev.frame_id in
      let s2 = record_url (clear_for_navigation is_bidi s1 session_id) juggler_session_id ev.url in
      if is_intermediate s1 juggler_session_id ev.url
      then some s1
      else loader_of ev.navigation_id juggler_session_id
        >>= (λ loader_id. some (announce_navigation s2 session_id frame_id ev.url loader_id))

  unfoldable pub event_fired : State Regexp B → String → String → String → State Regexp B
  event_fired s juggler_session_id name ev_frame_id =
      let session_id = resolve_cdp_session s juggler_session_id in
      let frame_id = cdp_frame s juggler_session_id ev_frame_id in
      let params = lifecycle frame_id (loader_for s session_id) name in
      let timestamp = object (("timestamp", num 0) ∷ []) in
      if name == "load"
      then (let s1 = emit env s "Page.loadEventFired" timestamp session_id in
          let s2 = emit env s1 "Page.lifecycleEvent" params session_id in
          emit env s2 "Page.frameStoppedLoading" (object (("frameId", str frame_id) ∷ []))
            session_id)
      else if name == "DOMContentLoaded"
      then (let s1 = emit env s "Page.domContentEventFired" timestamp session_id in
          emit env s1 "Page.lifecycleEvent" params session_id)
      else s

  unfoldable pub console : State Regexp B → String → String → String → State Regexp B
  console s juggler_session_id type args =
      emit env s "Runtime.consoleAPICalled"
        (object (
          ("type", str type)
          ∷ ("args", raw args)
          ∷ ("executionContextId", num 0)
          ∷ ("timestamp", num 0)
          ∷ []))
        (resolve_cdp_session s juggler_session_id)

  unfoldable pub frame_attached : State Regexp B → String → String → String → State Regexp B
  frame_attached s juggler_session_id ev_frame_id ev_parent_frame_id =
      let s' = note_attached s juggler_session_id ev_frame_id ev_parent_frame_id in
      emit env s' "Page.frameAttached"
        (object (
          ("frameId", str (cdp_frame s' juggler_session_id ev_frame_id))
          ∷ ("parentFrameId", str (cdp_frame s' juggler_session_id ev_parent_frame_id))
          ∷ []))
        (resolve_cdp_session s' juggler_session_id)

  unfoldable pub frame_detached : State Regexp B → String → String → State Regexp B
  frame_detached s juggler_session_id ev_frame_id =
      let s' = forget_detached s juggler_session_id ev_frame_id in
      emit env s' "Page.frameDetached"
        (object (
          ("frameId", str (cdp_frame s' juggler_session_id ev_frame_id))
          ∷ ("reason", str "remove")
          ∷ []))
        (resolve_cdp_session s' juggler_session_id)

  unfoldable pub dialog_opened : State Regexp B → String → DialogOpened → State Regexp B
  dialog_opened s juggler_session_id ev =
      let session_id = resolve_cdp_session s juggler_session_id in
      let s' =
        if not (ev.dialog_id == "") && not (session_id == "")
        then record s { last_dialog = put s.last_dialog session_id ev.dialog_id }
        else s in
      emit env s' "Page.javascriptDialogOpening"
        (object (
          ("type", str ev.type)
          ∷ ("message", str ev.message)
          ∷ ("defaultPrompt", str ev.default_value)
          ∷ ("hasBrowserHandler", flag false)
          ∷ ("url", str "")
          ∷ []))
        session_id

  unfoldable pub dialog_closed : State Regexp B → String → Bool → State Regexp B
  dialog_closed s juggler_session_id accepted =
      emit env s "Page.javascriptDialogClosed"
        (object (("result", flag accepted) ∷ ("userInput", str "") ∷ []))
        (resolve_cdp_session s juggler_session_id)

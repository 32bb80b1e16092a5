-- ===== src/Bridge/Requests.antt =====
-- pkg/bridge/events.go: the events on the network, the paused requests among them. What a handler leaves
-- to a goroutine is returned as work, which runs at some later time. A map of headers that is missing
-- is taken for an empty one, and a status code is not negative.
pub mod Params
pub mod Answers
use text.Mathlib.Text.{starts_with}
use foxbridge.Common.{
  ℕ, String, Bool, true, false, not, ◌&&◌, ◌||◌, List, [], ◌∷◌, ◌++◌, Option, none, some,
  string_key, nat_key, ◌==◌, if◌then◌else◌, is_some,
}
use foxbridge.Dict.{Dict, empty, get, put, bindings}
use foxbridge.Bridge.Ownership.Queries.{session_owner}
use foxbridge.Bridge.Ownership.Requests.{set_request_owner, clear_request}
use foxbridge.Bridge.Json.{Json, str, flag, num, object}
use foxbridge.Bridge.Fetch.{fetch_enabled_for_session, should_pause_fetch_request}
use foxbridge.Bridge.Fetch.Handler.{Reply}
use foxbridge.Bridge.Routing.{session_for_frame, cdp_frame_id_for_session}
use foxbridge.Bridge.State.{
  State, Env, emit, emit_raw, call_juggler, resolve_cdp_session, cdp_frame,
}
use foxbridge.Bridge.Requests.Params.{
  WillBeSent, ResponseReceived, Intercepted, Work, header_map, header_fields, headers_json,
  request_fields, sent_params, paused_params, is_web_socket, sent_resource_type,
  intercepted_resource_type, intercepted_url, is_empty, or_empty, continue_request,
  continue_unattributed,
}

module _ {Regexp B : Type 0} where
  abbrev own_request : State Regexp B → String → String → State Regexp B
  own_request s request_id session_id = record s {
    ownership = set_request_owner s.ownership request_id session_id;
  }

  -- A session that no client has counts as none.
  abbrev pub owned_or_none : State Regexp B → String → String
  owned_or_none s session_id =
      if not (session_id == "") && not (is_some (session_owner s.ownership session_id))
      then ""
      else session_id

  -- The session of a request: that of the event, or else that of the frame.
  unfoldable pub request_session : State Regexp B → String → String → String
  request_session s juggler_session_id frame_id =
      let session_id = owned_or_none s (resolve_cdp_session s juggler_session_id) in
      owned_or_none s (
        if session_id == "" && not (frame_id == "")
        then or_empty (session_for_frame s.sessions s.ownership frame_id)
        else session_id)

abbrev paused_request : WillBeSent → Json
paused_request ev = object (
    request_fields ev.url ev.method ev.headers
    ++ (if ev.post_data == "" then [] else ("postData", str ev.post_data) ∷ []))

module _ {Regexp B : Type 0} (env : Env B) where
  unfoldable pub run_work : Bool → State Regexp B → Work → State Regexp B × Reply
  run_work is_bidi s (continue_request session_id request_id) =
      let params = some (object (("requestId", str request_id) ∷ [])) in
      if is_bidi
      then call_juggler env s "" "Browser.continueInterceptedRequest" params
      else call_juggler env s session_id "Network.resumeInterceptedRequest" params
  run_work is_bidi s (continue_unattributed request_id) =
      call_juggler env s "" "Browser.continueInterceptedRequest"
        (some (object (("requestId", str request_id) ∷ [])))

  unfoldable pub announce_request : State Regexp B → String → String → WillBeSent → State Regexp B
  announce_request s session_id frame_id ev =
      let s' =
        if is_web_socket ev.url
        then emit env s "Network.webSocketCreated"
            (object (("requestId", str ev.request_id) ∷ ("url", str ev.url) ∷ [])) session_id
        else s in
      emit env s' "Network.requestWillBeSent"
        (sent_params ev.request_id ev.url ev.method ev.headers (sent_resource_type ev) frame_id)
        session_id

  unfoldable pub announce_paused : State Regexp B → String → Intercepted → State Regexp B
  announce_paused s session_id ev =
      let method = if ev.url == "" then ev.nested_method else ev.method in
      let headers = if is_empty ev.headers then ev.nested_headers else ev.headers in
      let resource_type = intercepted_resource_type ev in
      let frame_id = cdp_frame_id_for_session s.sessions session_id ev.frame_id in
      let s' =
        emit env s "Network.requestWillBeSent"
          (sent_params ev.request_id (intercepted_url ev) method headers resource_type frame_id)
          session_id in
      emit env s' "Fetch.requestPaused"
        (paused_params ev.request_id (object (request_fields (intercepted_url ev) method headers))
          frame_id resource_type)
        session_id

  unfoldable pub announce_sent_paused :
      State Regexp B → String → String → WillBeSent → State Regexp B
  announce_sent_paused s session_id frame_id ev =
      emit env s "Fetch.requestPaused"
        (paused_params ev.request_id (paused_request ev) frame_id (sent_resource_type ev))
        session_id

  module _ (match_string : Regexp → String → Bool) (equal_fold : String → String → Bool) where
    abbrev pub pauses_request : State Regexp B → String → String → String → Bool
    pauses_request s session_id url resource_type =
        should_pause_fetch_request match_string equal_fold s.fetch_patterns session_id url
          resource_type "Request"

    unfoldable pub request_will_be_sent :
        State Regexp B → String → WillBeSent → State Regexp B × List Work
    request_will_be_sent s juggler_session_id ev =
        let session_id = resolve_cdp_session s juggler_session_id in
        let s1 = if session_id == "" then s else own_request s ev.request_id session_id in
        let frame_id = cdp_frame s1 juggler_session_id ev.frame_id in
        let s2 = announce_request s1 session_id frame_id ev in
        if not ev.is_intercepted
        then (s2, [])
        else if not (fetch_enabled_for_session s2.fetch_patterns session_id)
        then (s2, continue_request session_id ev.request_id ∷ [])
        else if not (pauses_request s2 session_id ev.url (sent_resource_type ev))
        then (s2, continue_request session_id ev.request_id ∷ [])
        else (announce_sent_paused s2 session_id frame_id ev, [])

    unfoldable pub request_intercepted :
        State Regexp B → String → Intercepted → State Regexp B × List Work
    request_intercepted s juggler_session_id ev =
        let session_id = request_session s juggler_session_id ev.frame_id in
        let s' = own_request s ev.request_id session_id in
        if session_id == ""
        then (s, continue_unattributed ev.request_id ∷ [])
        else if not
            (pauses_request s' session_id (intercepted_url ev) (intercepted_resource_type ev))
        then (s', continue_request session_id ev.request_id ∷ [])
        else (announce_paused s' session_id ev, [])

  unfoldable pub response_received : State Regexp B → String → ResponseReceived → State Regexp B
  response_received s juggler_session_id ev =
      emit env s "Network.responseReceived"
        (object (
          ("requestId", str ev.request_id)
          ∷ ("loaderId", str ev.request_id)
          ∷ ("timestamp", num 0)
          ∷ ("type", str "Document")
          ∷ (
            "response",
            object (
                ("url", str ev.url)
                ∷ ("status", num ev.status)
                ∷ ("statusText", str ev.status_text)
                ∷ ("headers", headers_json ev.headers)
                ∷ ("mimeType", str "")
                ∷ ("connectionReused", flag false)
                ∷ ("connectionId", num 0)
                ∷ ("encodedDataLength", num 0)
                ∷ ("fromDiskCache", flag ev.from_cache)
                ∷ ("fromServiceWorker", flag false)
                ∷ ("fromPrefetchCache", flag false)
                ∷ ("securityState", str "secure")
                ∷ []),
          )
          ∷ ("frameId", str (cdp_frame s juggler_session_id ev.frame_id))
          ∷ []))
        (resolve_cdp_session s juggler_session_id)

  unfoldable pub request_finished : State Regexp B → String → String → State Regexp B
  request_finished s juggler_session_id request_id =
      emit env s "Network.loadingFinished"
        (object (
          ("requestId", str request_id) ∷ ("timestamp", num 0) ∷ ("encodedDataLength", num 0) ∷ []))
        (resolve_cdp_session s juggler_session_id)

  unfoldable pub request_failed : State Regexp B → String → String → String → State Regexp B
  request_failed s juggler_session_id request_id error_code =
      let s' =
        emit env s "Network.loadingFailed"
          (object (
            ("requestId", str request_id)
            ∷ ("timestamp", num 0)
            ∷ ("type", str "Document")
            ∷ ("errorText", str error_code)
            ∷ ("canceled", flag false)
            ∷ []))
          (resolve_cdp_session s juggler_session_id) in
      record s' { ownership = clear_request s'.ownership request_id }

  -- The handlers that pass the parameters on as they came: webSocket events, screencast frames, file choosers.
  unfoldable pub pass_on : State Regexp B → String → String → String → State Regexp B
  pass_on s juggler_session_id method params =
      emit_raw env s method (some params) (resolve_cdp_session s juggler_session_id)

  unfoldable pub download_created :
      State Regexp B → String → String → String → String → State Regexp B
  download_created s juggler_session_id uuid url suggested_file_name =
      let session_id = resolve_cdp_session s juggler_session_id in
      if session_id == ""
      then s
      else emit env s "Page.downloadWillBegin"
          (object (
            ("frameId", str "")
            ∷ ("guid", str uuid)
            ∷ ("url", str url)
            ∷ ("suggestedFilename", str suggested_file_name)
            ∷ []))
          session_id

  unfoldable pub download_finished :
      State Regexp B → String → String → Bool → String → State Regexp B
  download_finished s juggler_session_id uuid canceled error =
      let session_id = resolve_cdp_session s juggler_session_id in
      let state = if canceled || not (error == "") then "canceled" else "completed" in
      if session_id == ""
      then s
      else emit env s "Page.downloadProgress"
          (object (("guid", str uuid) ∷ ("state", str state) ∷ [])) session_id

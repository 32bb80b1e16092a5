-- ===== src/Bridge/Fetch/Handler.antt =====
-- pkg/bridge/fetch.go: `handleFetch`. The backend is a state and a function that performs a call;
-- the decoders are those of encoding/json and encoding/base64.
use Prim.Native.String.{◌++◌}
use foxbridge.Common.{
  ℕ, String, Bool, true, false, not, ◌&&◌, List, [], ◌∷◌, Option, none, some, ◌>>=◌, string_key,
  ◌==◌, is_some, if◌then◌else◌,
}
use foxbridge.Cdp.Message.{Message, Error, negsuc}
use foxbridge.Cdp.Session.{SessionManager, SessionInfo, get_session}
use foxbridge.Bridge.Ownership.{Registry}
use foxbridge.Bridge.Ownership.Requests.{request_owned, clear_request}
use foxbridge.Bridge.Fetch.{
  RequestPattern, Patterns, set_fetch_patterns, clear_fetch_patterns, fetch_interception_enabled,
}
use foxbridge.Bridge.Fetch.Calls.{
  text, flag, Params, ContinueParams, FulfillParams, AuthParams, continue_params, fulfill_params,
  fail_params, auth_params, response_params, is_utf8_text,
}

-- What a backend call returns: a result, or the text of an error.
pub data Reply : Type 0 where
  returned failed : String → Reply

-- The decoders and encoders of the requests of the domain; `none` is an error of decoding.
pub record Codec (Regexp : Type 0) : Type 0 where
  pub patterns : String → Option (List String)
  pub compile_patterns : List String → Option (List (RequestPattern Regexp))
  pub request_id : String → Option String
  pub continue_request : String → Option ContinueParams
  pub fulfill_request : String → Option FulfillParams
  pub fail_request : String → Option (String × String)
  pub auth : String → Option AuthParams
  pub continue_response : String → Option FulfillParams
  pub base64_body : String → Option String
  pub base64 : String → Option (List ℕ)
  pub text_body : List ℕ → String
  pub encoded_body : String → String

pub record FetchState (Regexp B : Type 0) : Type 0 where
  pub ownership : Registry
  pub fetch_patterns : Patterns Regexp
  pub backend : B

-- A result or an error: `json.RawMessage` and `*cdp.Error`.
abbrev pub Outcome : Type 0
Outcome = Option String × Option Error

abbrev pub refused : ℕ → String → Outcome
refused code message = (none, some (record { code = negsuc code; message = message }))

abbrev pub invalid_params : Outcome
invalid_params = refused 32601 "invalid params"

abbrev pub synthetic_default : String
synthetic_default = "vulpine-default-context"

module _ {Regexp B : Type 0} (codec : Codec Regexp) (is_bidi : Bool)
    (call : B → String → String → Params → B × Reply) (sessions : SessionManager) where
  abbrev answered : Reply → Outcome
  answered (returned result) = (some "{}", none)
  answered (failed message) = refused 31999 message

  unfoldable pub call_fetch_backend : B → String → String → String → Params → B × Reply
  call_fetch_backend b session_id juggler_method bidi_method params =
      if is_bidi then call b "" bidi_method params else call b session_id juggler_method params

  -- A call of the backend, whose result is dropped.
  unfoldable pub forward :
      FetchState Regexp B → String → String → String → Params → FetchState Regexp B × Outcome
  unfolding call_fetch_backend
  forward s session_id juggler_method bidi_method params =
      let (b, reply) = call_fetch_backend s.backend session_id juggler_method bidi_method params in
      (record s { backend = b }, answered reply)

  abbrev browser_context : Option SessionInfo → Params
  browser_context none = []
  browser_context (some info) =
      if info.browser_context_id == ""
      then []
      else if info.browser_context_id == synthetic_default
      then []
      else ("browserContextId", text info.browser_context_id) ∷ []

  unfoldable pub interception_params : String → Bool → Params
  interception_params session_id enabled =
      ("enabled", flag enabled)
      ∷ (if session_id == "" then [] else browser_context (get_session sessions session_id))

  -- No parameters means no patterns.
  abbrev requested : Option String → Option (List String)
  requested none = some []
  requested (some raw) = codec.patterns raw

  abbrev enabled_with : FetchState Regexp B → String → B × Reply → FetchState Regexp B × Outcome
  enabled_with s session_id (b, returned result) = (record s { backend = b }, (some "{}", none))
  enabled_with s session_id (b, failed message) = (
    record s { backend = b; fetch_patterns = clear_fetch_patterns s.fetch_patterns session_id },
    refused 31999 message,
  )

  unfoldable pub enable : FetchState Regexp B → Message → FetchState Regexp B × Outcome
  unfolding set_fetch_patterns clear_fetch_patterns interception_params
  enable s msg = elim (requested msg.params) [
    | none ↦ (s, invalid_params)
    | some raw ↦ elim (codec.compile_patterns raw) [
      | none ↦ (s, refused 32601 "invalid Fetch pattern")
      | some patterns ↦
          let s' : FetchState Regexp B = record s {
            fetch_patterns = set_fetch_patterns s.fetch_patterns msg.session_id patterns;
          } in
          enabled_with s' msg.session_id (
            call s.backend "" "Browser.setRequestInterception"
              (interception_params msg.session_id true))
    ]
  ]

  unfoldable pub disable : FetchState Regexp B → Message → FetchState Regexp B × Outcome
  unfolding clear_fetch_patterns interception_params fetch_interception_enabled
  disable s msg =
      let patterns = clear_fetch_patterns s.fetch_patterns msg.session_id in
      let (b, reply) =
        call s.backend "" "Browser.setRequestInterception"
          (interception_params msg.session_id (fetch_interception_enabled patterns)) in
      (record s { backend = b; fetch_patterns = patterns }, answered reply)

  abbrev body_text : String → Option (List ℕ) → String
  body_text base64_body none = codec.encoded_body base64_body
  body_text base64_body (some decoded) =
      if is_utf8_text decoded then codec.text_body decoded else codec.encoded_body base64_body

  abbrev body_of : FetchState Regexp B → String → Reply → FetchState Regexp B × Outcome
  body_of s request_id (failed message) = (s, refused 31999 message)
  body_of s request_id (returned result) = elim (codec.base64_body result) [
    | none ↦ (s, refused 31999 "failed to parse response body")
    | some base64_body ↦ (
      record s { ownership = clear_request s.ownership request_id },
      (some (body_text base64_body (codec.base64 base64_body)), none),
    )
  ]

  unfoldable pub get_response_body : FetchState Regexp B → Message → FetchState Regexp B × Outcome
  unfolding call_fetch_backend
  get_response_body s msg = elim (msg.params >>= codec.request_id) [
    | none ↦ (s, invalid_params)
    | some request_id ↦
        let (b, reply) =
          call_fetch_backend s.backend msg.session_id "Network.getResponseBody"
            "Browser.getResponseBody" (("requestId", text request_id) ∷ []) in
        body_of (record s { backend = b }) request_id reply
  ]

  -- Decode the parameters, translate them and call the backend.
  abbrev pub relay :
      {P : Type 0}
      → FetchState Regexp B
      → Message
      → String
      → String
      → (P → Params)
      → Option P
      → FetchState Regexp B × Outcome
  relay s msg juggler_method bidi_method translate none = (s, invalid_params)
  relay s msg juggler_method bidi_method translate (some p) =
      forward s msg.session_id juggler_method bidi_method (translate p)

  -- The `switch` of `handleFetch`. `continueWithAuth` always calls for the whole browser.
  unfoldable pub fetch_method : FetchState Regexp B → Message → FetchState Regexp B × Outcome
  unfolding enable disable get_response_body forward
  fetch_method s msg =
      if msg.method == "Fetch.enable"
      then enable s msg
      else if msg.method == "Fetch.disable"
      then disable s msg
      else if msg.method == "Fetch.continueRequest"
      then relay s msg "Network.resumeInterceptedRequest" "Browser.continueInterceptedRequest"
          continue_params (msg.params >>= codec.continue_request)
      else if msg.method == "Fetch.fulfillRequest"
      then relay s msg "Network.fulfillInterceptedRequest" "Browser.fulfillInterceptedRequest"
          fulfill_params (msg.params >>= codec.fulfill_request)
      else if msg.method == "Fetch.failRequest"
      then relay s msg "Network.abortInterceptedRequest" "Browser.abortInterceptedRequest"
          fail_params (msg.params >>= codec.fail_request)
      else if msg.method == "Fetch.continueWithAuth"
      then relay s (record msg { session_id = "" }) "Browser.handleAuthRequest"
          "Browser.handleAuthRequest" auth_params (msg.params >>= codec.auth)
      else if msg.method == "Fetch.getResponseBody"
      then get_response_body s msg
      else if msg.method == "Fetch.continueResponse"
      then relay s msg "Network.resumeInterceptedRequest" "Browser.continueInterceptedRequest"
          response_params (msg.params >>= codec.continue_response)
      else (s, refused 32600 ("method not found: " ++ msg.method))

  abbrev pub owns_request : FetchState Regexp B → Message → Option String → Bool
  owns_request s msg none = false
  owns_request s msg (some request_id) = request_owned s.ownership msg.session_id request_id

  unfoldable pub handle_fetch :
      FetchState Regexp B → Option ℕ → Message → FetchState Regexp B × Outcome
  unfolding fetch_method
  handle_fetch s conn msg =
      if is_some conn
        && not (msg.method == "Fetch.enable")
        && not (msg.method == "Fetch.disable")
        && not (owns_request s msg (msg.params >>= codec.request_id))
      then (s, refused 31999 "request not found")
      else fetch_method s msg

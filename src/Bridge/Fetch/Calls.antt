-- ===== src/Bridge/Fetch/Calls.antt =====
-- pkg/bridge/fetch.go: what the requests of the Fetch domain carry, and what is asked of the backend.
use foxbridge.Common.{
  ℕ, String, Bool, true, false, List, [], ◌∷◌, ◌++◌, string_key, nat_key, ◌==◌, ltb, if◌then◌else◌,
}

-- The JSON values that occur in the parameters of a backend call.
pub data Value : Type 0 where
  text : String → Value
  number : ℕ → Value
  flag : Bool → Value
  -- each header an object with a name and a value
  headers_value : List (String × String) → Value

abbrev pub Params : Type 0
Params = List (String × Value)

-- The fields that a request is decoded to. A status code is not negative.
pub record ContinueParams : Type 0 where
  pub request_id : String
  pub url : String
  pub method : String
  pub post_data : String
  pub headers : List (String × String)

pub record FulfillParams : Type 0 where
  pub request_id : String
  pub response_code : ℕ
  pub response_headers : List (String × String)
  pub body : String
  pub response_phrase : String

pub record AuthParams : Type 0 where
  pub request_id : String
  pub response : String
  pub username : String
  pub password : String

abbrev if_text : String → String → Params
if_text key value = if value == "" then [] else (key, text value) ∷ []

abbrev if_headers : List (String × String) → Params
if_headers [] = []
if_headers (h ∷ l) = ("headers", headers_value (h ∷ l)) ∷ []

unfoldable pub continue_params : ContinueParams → Params
continue_params p =
    ("requestId", text p.request_id) ∷ if_text "url" p.url
    ++ if_text "method" p.method
    ++ if_headers p.headers
    ++ if_text "postData" p.post_data

unfoldable pub http_status_text : ℕ → String
http_status_text code =
    if code == 200
    then "OK"
    else if code == 201
    then "Created"
    else if code == 204
    then "No Content"
    else if code == 301
    then "Moved Permanently"
    else if code == 302
    then "Found"
    else if code == 304
    then "Not Modified"
    else if code == 400
    then "Bad Request"
    else if code == 401
    then "Unauthorized"
    else if code == 403
    then "Forbidden"
    else if code == 404
    then "Not Found"
    else if code == 405
    then "Method Not Allowed"
    else if code == 500
    then "Internal Server Error"
    else if code == 502
    then "Bad Gateway"
    else if code == 503
    then "Service Unavailable"
    else "OK"

unfoldable pub fulfill_params : FulfillParams → Params
unfolding http_status_text
fulfill_params p =
    ("requestId", text p.request_id)
    ∷ ("status", number p.response_code)
    ∷ (
      "statusText",
      text
          (if p.response_phrase == "" then http_status_text p.response_code else p.response_phrase),
    )
    ∷ ("headers", headers_value p.response_headers)
    ∷ ("base64body", text p.body)
    ∷ []

unfoldable pub map_error_reason : String → String
map_error_reason reason =
    if reason == "Failed"
    then "failed"
    else if reason == "Aborted"
    then "aborted"
    else if reason == "TimedOut"
    then "timedout"
    else if reason == "AccessDenied"
    then "accessdenied"
    else if reason == "ConnectionClosed"
    then "connectionclosed"
    else if reason == "ConnectionReset"
    then "connectionreset"
    else if reason == "ConnectionRefused"
    then "connectionrefused"
    else if reason == "ConnectionAborted"
    then "connectionaborted"
    else if reason == "ConnectionFailed"
    then "connectionfailed"
    else if reason == "NameNotResolved"
    then "namenotresolved"
    else if reason == "InternetDisconnected"
    then "internetdisconnected"
    else if reason == "AddressUnreachable"
    then "addressunreachable"
    else if reason == "BlockedByClient"
    then "blockedbyclient"
    else if reason == "BlockedByResponse"
    then "blockedbyresponse"
    else "failed"

unfoldable pub fail_params : String × String → Params
unfolding map_error_reason
fail_params (request_id, error_reason) =
    ("requestId", text request_id) ∷ ("errorCode", text (map_error_reason error_reason)) ∷ []

unfoldable pub auth_params : AuthParams → Params
auth_params p =
    ("requestId", text p.request_id)
    ∷ (if p.response == "ProvideCredentials"
        then ("action", text "provideCredentials")
          ∷ ("username", text p.username)
          ∷ ("password", text p.password)
          ∷ []
        else if p.response == "CancelAuth"
        then ("action", text "cancel") ∷ []
        else ("action", text "default") ∷ [])

unfoldable pub response_params : FulfillParams → Params
response_params p =
    ("requestId", text p.request_id)
      ∷ (if ltb 0 p.response_code then ("status", number p.response_code) ∷ [] else [])
    ++ if_headers p.response_headers

-- A text in UTF-8 as the code tells it: without a null byte.
unfoldable pub is_utf8_text : List ℕ → Bool
is_utf8_text [] = true
is_utf8_text (b ∷ l) = let rest = is_utf8_text l in if b == 0 then false else rest

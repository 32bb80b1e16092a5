-- ===== src/Tests/Fetch.antt =====
-- pkg/bridge/fetch.go at concrete inputs, with stand-ins for the decoders, the expressions and the
-- backend: parameters are the request's id, and the backend counts its calls.
use foxbridge.Common.{
  ℕ, ◌+◌, String, ◌≡◌, ◌≢◌, refl, ◌⊎◌, ◌↔◌, Bool, true, false, List, [], ◌∷◌, none, some,
  string_key, nat_key, ◌==◌, string_discrete, differ, In,
}
use foxbridge.Dict.{empty, get, put}
use foxbridge.Cdp.Message.{pos, Message}
use foxbridge.Cdp.Session.{new_session_manager}
use foxbridge.Bridge.Ownership.{new_ownership_registry}
use foxbridge.Bridge.Ownership.Requests.{request_owned, set_request_owner}
use foxbridge.Bridge.Fetch.{RequestPattern, Patterns, should_pause_fetch_request}
use foxbridge.Bridge.Fetch.Calls.{Params}
use foxbridge.Bridge.Fetch.Filter.{IsFor, InForce, should_pause_fetch_request-IsFor}
use foxbridge.Bridge.Fetch.Handler.{
  Codec, FetchState, Reply, returned, refused, handle_fetch, fetch_method, get_response_body,
  call_fetch_backend,
}
use foxbridge.Bridge.Fetch.Guard.{handle_fetch-Keeps, get_response_body_once}

abbrev pattern : RequestPattern String
pattern = record {
  url_pattern = "*";
  resource_type = "";
  request_stage = "";
  url_regexp = "https://a";
}

abbrev match_string : String → String → Bool
match_string re url = re == url

abbrev equal_fold : String → String → Bool
equal_fold a b = a == b

abbrev filters : Patterns String
filters = put empty "s1" (pattern ∷ [])

should_pause_fetch_request_example :
    (should_pause_fetch_request match_string equal_fold filters "s1" "https://a" "Document"
        "Request"
      ≡ true)
    ↔ ((l : List (RequestPattern String))
        → InForce match_string equal_fold "https://a" "Document" "Request" filters "s1" l
        → (l ≡ [])
          ⊎ ((p : RequestPattern String) × In p l
              × IsFor match_string equal_fold "https://a" "Document" "Request" p))
should_pause_fetch_request_example =
    should_pause_fetch_request-IsFor match_string equal_fold "https://a" "Document" "Request"
      filters "s1"

abbrev codec : Codec String
codec = record {
  patterns = λ raw. some [];
  compile_patterns = λ raw. some [];
  request_id = λ raw. some raw;
  continue_request = λ raw. none;
  fulfill_request = λ raw. none;
  fail_request = λ raw. none;
  auth = λ raw. none;
  continue_response = λ raw. none;
  base64_body = λ raw. some raw;
  base64 = λ raw. none;
  text_body = λ decoded. "";
  encoded_body = λ raw. raw;
}

abbrev call : ℕ → String → String → Params → ℕ × Reply
call n session_id method params = (n + 1, returned "body")

abbrev state : FetchState String ℕ
state = record {
  ownership = set_request_owner new_ownership_registry "r1" "s1";
  fetch_patterns = filters;
  backend = 0;
}

abbrev get_body : String → Message
get_body session_id = record {
  id = pos 1;
  method = "Fetch.getResponseBody";
  params = some "r1";
  result = none;
  error = none;
  session_id = session_id;
}

not_enable : ◌≢◌ {A = String} "Fetch.getResponseBody" "Fetch.enable"
unfolding string_discrete
not_enable = differ {K = String} _ _ refl

not_disable : ◌≢◌ {A = String} "Fetch.getResponseBody" "Fetch.disable"
unfolding string_discrete
not_disable = differ {K = String} _ _ refl

other_session : ◌≢◌ {A = String} "s1" "s2"
unfolding string_discrete
other_session = differ {K = String} _ _ refl

handle_fetch-Keeps_example :
    get
      (handle_fetch codec false call new_session_manager state
        (some 8)
        (get_body "s2")).0.fetch_patterns
      "s1"
    ≡ get state.fetch_patterns "s1"
handle_fetch-Keeps_example =
    handle_fetch-Keeps codec false call new_session_manager "s1" state (get_body "s2") other_session
      (some 8)

served :
    (handle_fetch codec false call new_session_manager state (some 7) (get_body "s1")).1.1 ≡ none
unfolding handle_fetch fetch_method get_response_body call_fetch_backend request_owned
    set_request_owner new_ownership_registry get put empty string_discrete
served = refl

get_response_body_once_example :
    let s' = (handle_fetch codec false call new_session_manager state (some 7) (get_body "s1")).0 in
    handle_fetch codec false call new_session_manager s' (some 8) (get_body "s2")
    ≡ (s', refused 31999 "request not found")
get_response_body_once_example =
    get_response_body_once codec false call new_session_manager state (some 7) 8 (get_body "s1")
      (get_body "s2") "r1" refl refl served not_enable not_disable refl

-- ===== src/Bridge/Requests/Params.antt =====
-- pkg/bridge/events.go: the parameters of the events on the network, and what clients are told of them.
use text.Mathlib.Text.{starts_with}
use foxbridge.Common.{
  ℕ, String, Bool, true, false, not, ◌&&◌, ◌||◌, List, [], ◌∷◌, Option, none, some, string_key,
  nat_key, ◌==◌, if◌then◌else◌,
}
use foxbridge.Dict.{Dict, empty, put, bindings}
use foxbridge.Bridge.Json.{Json, str, num, object}

-- The parameters of Network.requestWillBeSent that are read.
pub record WillBeSent : Type 0 where
  pub request_id : String
  pub frame_id : String
  pub url : String
  pub method : String
  pub headers : List (String × String)
  pub post_data : String
  pub is_intercepted : Bool
  pub is_navigation : Bool
  pub navigation_id : String

pub record ResponseReceived : Type 0 where
  pub request_id : String
  pub frame_id : String
  pub url : String
  pub from_cache : Bool
  pub headers : List (String × String)
  pub status : ℕ
  pub status_text : String

-- Those of Browser.requestIntercepted, with the nested request of the older format.
pub record Intercepted : Type 0 where
  pub request_id : String
  pub url : String
  pub method : String
  pub headers : List (String × String)
  pub nested_url : String
  pub nested_method : String
  pub nested_headers : List (String × String)
  pub frame_id : String
  pub is_navigation_request : Bool
  pub resource_type : String

-- A goroutine that a handler starts.
pub data Work : Type 0 where
  continue_request : String → String → Work
  continue_unattributed : String → Work

-- A loop over entries with names and values that fills a map.
unfoldable pub header_map : List (String × String) → Dict String String → Dict String String
header_map [] d = d
header_map ((name, value) ∷ l) d = header_map l (put d name value)

abbrev pub header_fields : List (String × String) → List (String × Json)
header_fields [] = []
header_fields ((name, value) ∷ l) = (name, str value) ∷ header_fields l

abbrev pub headers_json : List (String × String) → Json
headers_json l = object (header_fields (bindings (header_map l empty)))

abbrev pub request_fields : String → String → List (String × String) → List (String × Json)
request_fields url method headers =
    ("url", str url)
    ∷ ("method", str method)
    ∷ ("headers", headers_json headers)
    ∷ ("initialPriority", str "High")
    ∷ ("referrerPolicy", str "strict-origin-when-cross-origin")
    ∷ []

abbrev pub sent_params : String → String → String → List (String × String) → String → String → Json
sent_params request_id url method headers resource_type frame_id = object (
    ("requestId", str request_id)
    ∷ ("loaderId", str request_id)
    ∷ ("documentURL", str url)
    ∷ ("request", object (request_fields url method headers))
    ∷ ("timestamp", num 0)
    ∷ ("wallTime", num 0)
    ∷ ("initiator", object (("type", str "other") ∷ []))
    ∷ ("type", str resource_type)
    ∷ ("frameId", str frame_id)
    ∷ [])

abbrev pub paused_params : String → Json → String → String → Json
paused_params request_id request frame_id resource_type = object (
    ("requestId", str request_id)
    ∷ ("networkId", str request_id)
    ∷ ("request", request)
    ∷ ("frameId", str frame_id)
    ∷ ("resourceType", str resource_type)
    ∷ [])

abbrev pub is_web_socket : String → Bool
is_web_socket url = starts_with url "ws://" || starts_with url "wss://"

unfoldable pub sent_resource_type : WillBeSent → String
sent_resource_type ev =
    if is_web_socket ev.url
    then "WebSocket"
    else if not ev.is_navigation && ev.navigation_id == ""
    then "Other"
    else "Document"

unfoldable pub intercepted_resource_type : Intercepted → String
intercepted_resource_type ev =
    if not (ev.resource_type == "")
    then ev.resource_type
    else if ev.is_navigation_request
    then "Document"
    else "Other"

-- The address of the event, or that of the nested request.
abbrev pub intercepted_url : Intercepted → String
intercepted_url ev = if ev.url == "" then ev.nested_url else ev.url

abbrev pub is_empty : List (String × String) → Bool
is_empty [] = true
is_empty (h ∷ l) = false

abbrev pub or_empty : Option String → String
or_empty none = ""
or_empty (some id) = id

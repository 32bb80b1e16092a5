-- ===== src/Bridge/Domains/Network.antt =====
-- pkg/bridge/network.go: `handleNetwork`.
use foxbridge.Common.{
  ℕ, String, Bool, not, ◌&&◌, ◌||◌, [], ◌∷◌, Option, none, some, string_key, ◌==◌, if◌then◌else◌,
  is_some,
}
use foxbridge.Cdp.Message.{Message}
use foxbridge.Bridge.Json.{Json, str, flag}
use foxbridge.Bridge.Fetch.Handler.{Outcome, refused, invalid_params}
use foxbridge.Bridge.Ownership.Requests.{request_owned}
use foxbridge.Bridge.State.{State, Env}
use foxbridge.Bridge.Domains.{
  acknowledged, method_not_found, relay_quietly, relay_result, relay_context, session_context,
}

-- Whether there are patterns at all is all that is read of them.
pub record NetworkCodec : Type 0 where
  pub cookies : Option String → Option Json
  pub headers : Option String → Option Json
  pub has_patterns : Option String → Bool
  pub user_agent : Option String → String
  pub request_id : Option String → Option String

-- A setting of the whole browser, which clients do not share.
abbrev pub is_global : String → Bool
is_global method =
    method == "Network.setRequestInterception"
    || method == "Network.setUserAgentOverride"
    || method == "Network.setExtraHTTPHeaders"

abbrev is_ignored : String → Bool
is_ignored method =
    method == "Network.enable"
    || method == "Network.disable"
    || method == "Network.setCacheDisabled"
    || method == "Network.emulateNetworkConditions"

module _ {Regexp B : Type 0} (env : Env B) (codec : NetworkCodec) where
  -- The parameters name the field of the call.
  abbrev relay_field :
      State Regexp B → String → String → String → Option Json → State Regexp B × Outcome
  relay_field s session_id method key none = (s, invalid_params)
  relay_field s session_id method key (some json) =
      relay_context env s session_id method ((key, json) ∷ [])

  unfoldable pub override_user_agent : State Regexp B → String → String → State Regexp B × Outcome
  override_user_agent s session_id user_agent =
      if user_agent == ""
      then (s, acknowledged)
      else relay_quietly env s "" "Browser.setUserAgentOverride"
          (("userAgent", str user_agent) ∷ session_context s session_id)

  abbrev body_of : State Regexp B → Option ℕ → String → Option String → State Regexp B × Outcome
  body_of s conn session_id none = (s, invalid_params)
  body_of s conn session_id (some request_id) =
      if is_some conn && not (request_owned s.ownership session_id request_id)
      then (s, refused 31999 "request not found")
      else relay_result env s "" "Browser.getResponseBody" (("requestId", str request_id) ∷ [])

  unfoldable pub network_method : State Regexp B → Option ℕ → Message → State Regexp B × Outcome
  network_method s conn msg =
      if is_ignored msg.method
      then (s, acknowledged)
      else if msg.method == "Network.setCookies"
      then relay_field s msg.session_id "Browser.setCookies" "cookies" (codec.cookies msg.params)
      else if msg.method == "Network.getCookies"
      then relay_result env s "" "Browser.getCookies" (session_context s msg.session_id)
      else if msg.method == "Network.deleteCookies"
      then relay_quietly env s "" "Browser.clearCookies" (session_context s msg.session_id)
      else if msg.method == "Network.clearBrowserCookies"
      then relay_context env s msg.session_id "Browser.clearCookies" []
      else if msg.method == "Network.setExtraHTTPHeaders"
      then relay_field s msg.session_id "Browser.setExtraHTTPHeaders" "headers"
          (codec.headers msg.params)
      else if msg.method == "Network.setRequestInterception"
      then relay_context env s msg.session_id "Browser.setRequestInterception"
          (("enabled", flag (codec.has_patterns msg.params)) ∷ [])
      else if msg.method == "Network.setUserAgentOverride"
      then override_user_agent s msg.session_id (codec.user_agent msg.params)
      else if msg.method == "Network.getResponseBody"
      then body_of s conn msg.session_id (codec.request_id msg.params)
      else (s, method_not_found msg.method)

  unfoldable pub handle_network : State Regexp B → Option ℕ → Message → State Regexp B × Outcome
  handle_network s conn msg =
      if is_some conn && is_global msg.method
      then (s, refused 31999 "shared browser-global setting is disabled")
      else network_method s conn msg

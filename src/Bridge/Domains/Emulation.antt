-- ===== src/Bridge/Domains/Emulation.antt =====
-- pkg/bridge/emulation.go: `handleEmulation`.
use Prim.Native.String.{◌++◌ as text_append}
use foxbridge.Common.{
  ℕ, String, Bool, true, not, ◌||◌, List, [], ◌∷◌, ◌++◌, Option, none, some, string_key, ◌==◌,
  if◌then◌else◌,
}
use foxbridge.Cdp.Message.{Message}
use foxbridge.Bridge.Json.{Json, str, flag, num}
use foxbridge.Bridge.Fetch.Handler.{Outcome, refused, invalid_params}
use foxbridge.Bridge.State.{State, Env}
use foxbridge.Bridge.Domains.{
  acknowledged, method_not_found, relay, relay_quietly, relay_context, session_context,
}

pub record Geolocation (F : Type 0) : Type 0 where
  pub latitude : Option F
  pub longitude : Option F
  pub accuracy : Option F

pub record DeviceMetrics (F : Type 0) : Type 0 where
  pub width : ℕ
  pub height : ℕ
  pub device_scale_factor : F

pub record EmulationCodec (F : Type 0) : Type 0 where
  pub geolocation : Option String → Geolocation F
  pub user_agent : Option String → Option String
  pub timezone_id : Option String → Option String
  pub locale : Option String → Option String
  pub device_metrics : Option String → DeviceMetrics F
  pub enabled : Option String → Bool
  pub media : Option String → String
  pub features : Option String → Option Json
  pub value : Option String → Bool

-- What is done with a float64.
pub record Floats (F : Type 0) : Type 0 where
  pub is_positive : F → Bool
  pub one : F
  pub json : F → Json

abbrev if_some {ℓ} : {A : Type ℓ} → String → (A → Json) → Option A → List (String × Json)
if_some key json none = []
if_some key json (some a) = (key, json a) ∷ []

abbrev toggle_script : Bool → String
toggle_script allowed =
    text_append "void(document.docShell && (document.docShell.allowJavascript = "
      (text_append (if allowed then "true" else "false") "))")

abbrev ignored : String → Bool
ignored method =
    method == "Emulation.clearDeviceMetricsOverride"
    || method == "Emulation.setScrollbarsHidden"
    || method == "Emulation.setDefaultBackgroundColorOverride"

module _ {Regexp B F : Type 0} (env : Env B) (codec : EmulationCodec F) (floats : Floats F) where
  unfoldable pub set_geolocation : State Regexp B → Message → State Regexp B × Outcome
  set_geolocation s msg =
      let p = codec.geolocation msg.params in
      relay_quietly env s "" "Browser.setGeolocationOverride" (
        session_context s msg.session_id
        ++ if_some "latitude" floats.json p.latitude
        ++ if_some "longitude" floats.json p.longitude
        ++ if_some "accuracy" (λ f. floats.json (if floats.is_positive f then f else floats.one))
            p.accuracy)

  unfoldable pub set_device_metrics : State Regexp B → Message → State Regexp B × Outcome
  set_device_metrics s msg =
      let p = codec.device_metrics msg.params in
      relay_quietly env s "" "Browser.setDefaultViewport" (
        (("width", num p.width) ∷ ("height", num p.height) ∷ [])
        ++ (if floats.is_positive p.device_scale_factor
            then ("deviceScaleFactor", floats.json p.device_scale_factor) ∷ []
            else [])
        ++ session_context s msg.session_id)

  -- The parameters name one text.
  abbrev relay_text :
      State Regexp B → String → String → String → Option String → State Regexp B × Outcome
  relay_text s session_id method key none = (s, invalid_params)
  relay_text s session_id method key (some text) =
      relay_context env s session_id method ((key, str text) ∷ [])

  unfoldable pub emulation_method : State Regexp B → Message → State Regexp B × Outcome
  emulation_method s msg =
      if msg.method == "Emulation.setGeolocationOverride"
      then set_geolocation s msg
      else if msg.method == "Emulation.setUserAgentOverride"
      then relay_text s msg.session_id "Browser.setUserAgentOverride" "userAgent"
          (codec.user_agent msg.params)
      else if msg.method == "Emulation.setTimezoneOverride"
      then relay_text s msg.session_id "Browser.setTimezoneOverride" "timezoneId"
          (codec.timezone_id msg.params)
      else if msg.method == "Emulation.setLocaleOverride"
      then relay_text s msg.session_id "Browser.setLocaleOverride" "locale"
          (codec.locale msg.params)
      else if msg.method == "Emulation.setDeviceMetricsOverride"
      then set_device_metrics s msg
      else if msg.method == "Emulation.setTouchEmulationEnabled"
      then relay_quietly env s "" "Browser.setTouchOverride"
          (("enabled", flag (codec.enabled msg.params)) ∷ session_context s msg.session_id)
      else if msg.method == "Emulation.setEmulatedMedia"
      then relay env s msg.session_id "Page.setEmulatedMedia" (
          (if codec.media msg.params == "" then [] else ("type", str (codec.media msg.params)) ∷ [])
          ++ if_some "features" (λ json. json) (codec.features msg.params))
      else if msg.method == "Emulation.setScriptExecutionDisabled"
      then relay_quietly env s msg.session_id "Runtime.evaluate" (
          ("expression", str (toggle_script (not (codec.value msg.params))))
          ∷ ("returnByValue", flag true)
          ∷ [])
      else if ignored msg.method
      then (s, acknowledged)
      else (s, method_not_found msg.method)

  unfoldable pub handle_emulation : State Regexp B → Option ℕ → Message → State Regexp B × Outcome
  handle_emulation s (some conn) msg =
      (s, refused 31999 "shared browser emulation settings are disabled")
  handle_emulation s none msg = emulation_method s msg

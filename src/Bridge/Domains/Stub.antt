-- ===== src/Bridge/Domains/Stub.antt =====
-- pkg/bridge/stub.go, console.go and storage.go.
use Prim.Native.String.{◌++◌ as text_append, len}
use text.Mathlib.Text.{get?}
use foxbridge.Common.{
  ℕ, ◌-◌, String, Bool, true, false, ◌||◌, List, [], ◌∷◌, Option, none, some, string_key, ◌==◌,
  if◌then◌else◌,
}
use foxbridge.Cdp.Message.{Message}
use foxbridge.Bridge.Json.{Json, raw, str, num, flag, object, array}
use foxbridge.Bridge.Fetch.Handler.{Reply, returned, failed, Outcome, refused}
use foxbridge.Bridge.State.{State, Env, call_juggler}
use foxbridge.Bridge.Domains.{acknowledged, method_not_found, done_or_refused, relay_quietly}

-- `strings.HasSuffix`.
unfoldable pub ends_with : String → String → Bool
ends_with s suffix = elim (get? s (len s - len suffix) (len s)) [
  | none ↦ false
  | some t ↦ t == suffix
]

abbrev member : String → List String → Bool
member name [] = false
member name (x ∷ l) = if x == name then true else member name l

abbrev stub_domains : List String
stub_domains =
    "Debugger" ∷ "Profiler" ∷ "HeapProfiler" ∷ "Memory" ∷ "ServiceWorker" ∷ "CacheStorage"
    ∷ "IndexedDB" ∷ "Log" ∷ "Security" ∷ "Overlay" ∷ "WebAuthn" ∷ "Media" ∷ "Audits" ∷ "Inspector"
    ∷ "Database" ∷ "BackgroundService" ∷ "Cast" ∷ "DeviceAccess" ∷ []

-- What the handlers decode, and Go's `%q`. `domain` is the part of a method before its first point, if it has one.
pub record StubCodec : Type 0 where
  pub domain : String → Option String
  pub browser_info : String → String × String
  pub storage_entries : String → Json
  pub storage_item : Option String → Bool × String × String
  pub quoted : String → String

abbrev version_json : String → String → Json
version_json product user_agent = object (
    ("protocolVersion", str "1.3")
    ∷ ("product", str product)
    ∷ ("revision", str "")
    ∷ ("userAgent", str user_agent)
    ∷ ("jsVersion", str "")
    ∷ [])

abbrev window_json : Json
window_json = object (
    ("windowId", num 1)
    ∷ (
      "bounds",
      object (
          ("left", num 0)
          ∷ ("top", num 0)
          ∷ ("width", num 1280)
          ∷ ("height", num 720)
          ∷ ("windowState", str "normal")
          ∷ []),
    )
    ∷ [])

abbrev raw_params : Option String → Option Json
raw_params none = none
raw_params (some params) = some (raw params)

unfoldable pub is_stub_domain : Option String → Bool
is_stub_domain none = false
is_stub_domain (some domain) = member domain stub_domains

module _ (codec : StubCodec) where
  abbrev version : Reply → Json
  version (failed message) = version_json "foxbridge (Firefox/Camoufox)" ""
  version (returned result) =
      let (number, user_agent) = codec.browser_info result in
      version_json (text_append "foxbridge (" (text_append number ")")) user_agent

  abbrev set_item_script : Bool × String × String → String
  set_item_script (is_local, key, value) =
      text_append (if is_local then "localStorage" else "sessionStorage") (
        text_append ".setItem(" (
          text_append (codec.quoted key) (text_append ", " (text_append (codec.quoted value) ")"))))

module _ {B : Type 0} (env : Env B) (codec : StubCodec) where
  abbrev entries : Reply → Outcome
  entries (failed message) = refused 31999 message
  entries (returned result) =
      (some (env.marshal (object (("entries", codec.storage_entries result) ∷ []))), none)

module _ {Regexp B : Type 0} (env : Env B) (codec : StubCodec) where
  unfoldable pub get_version : State Regexp B → State Regexp B × Outcome
  get_version s =
      let (s', reply) = call_juggler env s "" "Browser.getInfo" none in
      (s', (some (env.marshal (version codec reply)), none))

  unfoldable pub grant_permissions : State Regexp B → Option ℕ → Message → State Regexp B × Outcome
  grant_permissions s (some conn) msg =
      (s, refused 31999 "shared browser-global setting is disabled")
  grant_permissions s none msg =
      let (s', reply) = call_juggler env s "" "Browser.grantPermissions" (raw_params msg.params) in
      (s', (some (env.marshal (object [])), none))

  unfoldable pub close_browser : State Regexp B → State Regexp B × Outcome
  close_browser s =
      let (s', reply) = call_juggler env s "" "Browser.close" none in (s', done_or_refused reply)

  unfoldable pub handle_stub : State Regexp B → Option ℕ → Message → State Regexp B × Outcome
  handle_stub s conn msg =
      if msg.method == "Browser.getVersion"
      then get_version s
      else if msg.method == "Browser.grantPermissions"
      then grant_permissions s conn msg
      else if msg.method == "Browser.close"
      then close_browser s
      else if msg.method == "Browser.getWindowForTarget"
      then (s, (some (env.marshal window_json), none))
      else if msg.method == "Browser.setWindowBounds" || msg.method == "Browser.setDownloadBehavior"
      then (s, acknowledged)
      else if msg.method == "SystemInfo.getProcessInfo"
      then (s, (some (env.marshal (object (("processInfo", array []) ∷ []))), none))
      else if is_stub_domain (codec.domain msg.method)
      then (s, acknowledged)
      else if ends_with msg.method ".enable" || ends_with msg.method ".disable"
      then (s, acknowledged)
      else if msg.method == "Runtime.runIfWaitingForDebugger"
      then (s, acknowledged)
      else (s, method_not_found msg.method)

  unfoldable pub storage_items : State Regexp B → String → State Regexp B × Outcome
  storage_items s session_id =
      let (s', reply) = call_juggler env s session_id "Runtime.evaluate" (
        some (
          object (
            ("expression", str "JSON.stringify(Object.entries(localStorage).map(([k,v]) => [k,v]))")
            ∷ ("returnByValue", flag true)
            ∷ []))) in
      (s', entries env codec reply)

  unfoldable pub handle_dom_storage : State Regexp B → Option ℕ → Message → State Regexp B × Outcome
  handle_dom_storage s conn msg =
      if msg.method == "DOMStorage.getDOMStorageItems"
      then storage_items s msg.session_id
      else if msg.method == "DOMStorage.setDOMStorageItem"
      then relay_quietly env s msg.session_id "Runtime.evaluate" (
          ("expression", str (set_item_script codec (codec.storage_item msg.params)))
          ∷ ("returnByValue", flag true)
          ∷ [])
      else (s, acknowledged)

module _ {Regexp B : Type 0} where
  unfoldable pub handle_console : State Regexp B → Option ℕ → Message → State Regexp B × Outcome
  handle_console s conn msg =
      if msg.method == "Console.enable" || msg.method == "Console.disable"
      then (s, acknowledged)
      else (s, method_not_found msg.method)

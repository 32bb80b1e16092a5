-- ===== src/Bridge/Targets/Replies.antt =====
-- pkg/bridge/target.go: what the requests of the Target domain are decoded to, and what is answered.
use Prim.Native.String.{◌++◌ as text_append}
use foxbridge.Common.{
  String, Bool, true, false, ◌&&◌, List, [], ◌∷◌, Option, none, some, string_key, ◌==◌,
  if◌then◌else◌,
}
use foxbridge.Cdp.Session.{SessionInfo}
use foxbridge.Bridge.Json.{Json, str, flag, object}
use foxbridge.Bridge.Fetch.Handler.{Reply, returned, failed, Outcome, refused}
use foxbridge.Bridge.State.{Env, cdp_browser_context_id}
use foxbridge.Bridge.Targets.Create.{CreateTarget}

-- The decoders of the parameters; `none` is an error of decoding. Those whose errors the code drops give what is
-- left in the variable then.
pub record TargetCodec : Type 0 where
  pub discover : String → Option Bool
  pub auto_attach : Option String → Bool
  pub create : Option String → Option CreateTarget
  pub target_id : Option String → Option String
  pub target_id_or_empty : Option String → String
  pub context_id : Option String → Option String
  pub session_id_or_empty : Option String → String
  pub created_target : String → String
  pub created_context : String → String

abbrev pub info_json : SessionInfo → Json
info_json info = object (
    ("targetId", str info.target_id)
    ∷ ("type", str info.type)
    ∷ ("title", str info.title)
    ∷ ("url", str info.url)
    ∷ ("attached", flag true)
    ∷ ("browserContextId", str info.browser_context_id)
    ∷ [])

abbrev pub infos_json : List SessionInfo → List Json
infos_json [] = []
infos_json (info ∷ l) = info_json info ∷ infos_json l

abbrev pub texts_json : List String → List Json
texts_json [] = []
texts_json (text ∷ l) = str text ∷ texts_json l

abbrev pub first_or_empty : List String → String
first_or_empty [] = ""
first_or_empty (text ∷ l) = text

abbrev pub created_json : SessionInfo → Json
created_json info = object (
    (
      "targetInfo",
      object (
          ("targetId", str info.target_id)
          ∷ ("type", str info.type)
          ∷ ("title", str info.title)
          ∷ ("url", str (if info.url == "" && info.type == "page" then "about:blank" else info.url))
          ∷ ("attached", flag true)
          ∷ ("canAccessOpener", flag false)
          ∷ ("browserContextId", str info.browser_context_id)
          ∷ []),
    )
    ∷ [])

abbrev pub attached_json : String → String → Json
attached_json session_id target_id = object (
    ("sessionId", str session_id)
    ∷ (
      "targetInfo",
      object (
          ("targetId", str target_id)
          ∷ ("type", str "page")
          ∷ ("title", str "")
          ∷ ("url", str "")
          ∷ ("attached", flag true)
          ∷ ("browserContextId", str (cdp_browser_context_id ""))
          ∷ []),
    )
    ∷ ("waitingForDebugger", flag false)
    ∷ [])

abbrev pub browser_json : Json
browser_json = object (
    (
      "targetInfo",
      object (
          ("targetId", str "foxbridge-browser")
          ∷ ("type", str "browser")
          ∷ ("title", str "")
          ∷ ("url", str "")
          ∷ ("attached", flag true)
          ∷ ("canAccessOpener", flag false)
          ∷ []),
    )
    ∷ [])

abbrev pub session_json : String → Json
session_json session_id = object (("sessionId", str session_id) ∷ [])

abbrev pub not_found : String → Outcome
not_found target_id = refused 31999 (text_append "target " (text_append target_id " not found"))

abbrev pub acknowledged : Outcome
acknowledged = (some "{}", none)

abbrev pub success : Outcome
success = (some "{\"success\":true}", none)

abbrev pub contexts_disabled : Outcome
contexts_disabled = refused 31999 "browser contexts are disabled"

abbrev pub acknowledge : Reply → Outcome
acknowledge (failed message) = refused 31999 message
acknowledge (returned result) = acknowledged

abbrev pub marshal_result : {B : Type 0} → Env B → Json → Outcome
marshal_result env json = (some (env.marshal json), none)

abbrev pub requested_discover : TargetCodec → Option String → Option Bool
requested_discover codec none = some false
requested_discover codec (some raw) = codec.discover raw

-- ===== src/Bridge/Domains.antt =====
-- pkg/bridge: what the handlers of the domains have in common that pass a request on to the backend. The
-- decoders of encoding/json are parameters: a decoder without an `Option` is one whose error the code drops.
-- An int of the client is taken to be not negative, and a float64 is a number of a type `F`.
pub mod Network
pub mod Emulation
pub mod Input
pub mod Runtime
pub mod Stub
use Prim.Native.String.{◌++◌ as text_append}
use foxbridge.Common.{
  ℕ, String, Bool, true, false, List, [], ◌∷◌, ◌++◌, Option, none, some, string_key, ◌==◌,
  if◌then◌else◌,
}
use foxbridge.Cdp.Session.{SessionInfo, get_session}
use foxbridge.Bridge.Json.{Json, str, object}
use foxbridge.Bridge.Fetch.Handler.{Reply, returned, failed, Outcome, refused}
use foxbridge.Bridge.State.{State, Env, call_juggler, is_synthetic_default}

abbrev pub acknowledged : Outcome
acknowledged = (some "{}", none)

abbrev pub method_not_found : String → Outcome
method_not_found method = refused 32600 (text_append "method not found: " method)

abbrev pub passed_on : Reply → Outcome
passed_on (returned result) = (some result, none)
passed_on (failed message) = refused 31999 message

abbrev pub done_or_refused : Reply → Outcome
done_or_refused (returned result) = acknowledged
done_or_refused (failed message) = refused 31999 message

abbrev context_field : Option SessionInfo → List (String × Json)
context_field none = []
context_field (some info) =
    if is_synthetic_default info.browser_context_id
    then []
    else ("browserContextId", str info.browser_context_id) ∷ []

module _ {Regexp B : Type 0} where
  -- The browser context of the session of a request, for the parameters of a call.
  unfoldable pub session_context : State Regexp B → String → List (String × Json)
  session_context s session_id =
      if session_id == "" then [] else context_field (get_session s.sessions session_id)

module _ {Regexp B : Type 0} (env : Env B) where
  -- Call, and answer with nothing or with the error.
  unfoldable pub relay :
      State Regexp B → String → String → List (String × Json) → State Regexp B × Outcome
  relay s session_id method fields =
      let (s', reply) = call_juggler env s session_id method (some (object fields)) in
      (s', done_or_refused reply)

  -- Call, and drop an error.
  unfoldable pub relay_quietly :
      State Regexp B → String → String → List (String × Json) → State Regexp B × Outcome
  relay_quietly s session_id method fields =
      let (s', reply) = call_juggler env s session_id method (some (object fields)) in
      (s', acknowledged)

  -- Call, and answer with the result.
  unfoldable pub relay_result :
      State Regexp B → String → String → List (String × Json) → State Regexp B × Outcome
  relay_result s session_id method fields =
      let (s', reply) = call_juggler env s session_id method (some (object fields)) in
      (s', passed_on reply)

  -- A call for the browser, with the context of the session.
  abbrev pub relay_context :
      State Regexp B → String → String → List (String × Json) → State Regexp B × Outcome
  relay_context s session_id method fields =
      relay s "" method (fields ++ session_context s session_id)

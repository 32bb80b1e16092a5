-- ===== src/Bridge/Domains/Runtime.antt =====
-- pkg/bridge/runtime.go: `handleRuntime`, with `waitForContext` of page.go.
pub mod Values
pub mod Calls
use Prim.Native.String.{◌++◌ as text_append}
use foxbridge.Common.{
  ℕ, zero, suc, String, Bool, true, false, not, ◌&&◌, ◌||◌, List, [], ◌∷◌, ◌++◌, Option, none, some,
  string_key, nat_key, ◌==◌, if◌then◌else◌, is_some, ltb,
}
use foxbridge.Dict.{get, put, bindings}
use foxbridge.Cdp.Message.{Message}
use foxbridge.Cdp.Session.{SessionInfo, get_session}
use foxbridge.Bridge.Json.{Json, str, flag, num, raw, object, array}
use foxbridge.Bridge.Fetch.Handler.{Reply, returned, failed, Outcome, refused, invalid_params}
use foxbridge.Bridge.Routing.{
  resolve_session, cdp_frame_id_for_session, context_owned, unique_context_owned,
}
use foxbridge.Bridge.State.{State, Env, emit, call_juggler, next_ctx_id, latest_context_for_session}
use foxbridge.Bridge.Contexts.{register_context, context_params}
use foxbridge.Bridge.Domains.{acknowledged, method_not_found}
use foxbridge.Bridge.Domains.Runtime.Values.{
  Evaluate, RuntimeCodec, or_empty, frame_of, normal, translated, no_context, context_field,
  awaited, has_value, is_foreign, requested_context, preferred_context, is_foreign_object,
  usable_context,
}
use foxbridge.Bridge.Domains.Runtime.Calls.{CallCodec, call_function_on}

module _ {Regexp B : Type 0} (env : Env B) (codec : RuntimeCodec) where
  unfoldable pub evaluate_in :
      State Regexp B → String → Evaluate → Option String → State Regexp B × Outcome
  evaluate_in s session_id p none = (s, refused 31999 "execution context not available for session")
  evaluate_in s session_id p (some id) =
      let (s', reply) = call_juggler env s session_id "Runtime.evaluate" (
        some (
          object (
            (("expression", str (awaited p)) ∷ ("returnByValue", flag p.return_by_value) ∷ [])
            ++ context_field id))) in
      (s', normal env codec reply)

  -- The goroutine of Runtime.enable.
  unfoldable pub announce_latest : State Regexp B → String → State Regexp B
  announce_latest s session_id =
      let frame_id =
        cdp_frame_id_for_session s.sessions session_id
          (frame_of (get_session s.sessions session_id)) in
      let latest = or_empty (get s.latest_ctx (resolve_session s.sessions session_id)) in
      let (s', id) = next_ctx_id s in
      if not (frame_id == "") && not (latest == "")
      then emit env (register_context s' id latest session_id) "Runtime.executionContextCreated"
          (context_params id "" latest true "default" frame_id) session_id
      else s

  unfoldable pub release_object : State Regexp B → Message → State Regexp B × Outcome
  release_object s msg = elim (codec.object_id msg.params) [
    | none ↦ (s, invalid_params)
    | some object_id ↦
        if object_id == ""
        then (s, acknowledged)
        else if is_foreign_object s msg.session_id object_id
        then (s, refused 31999 "object not found")
        else if has_value object_id (bindings s.node_objects)
        then (s, acknowledged)
        else (
          (call_juggler env s msg.session_id "Runtime.disposeObject" (
              some (
                object (
                  ("objectId", str object_id)
                  ∷ context_field (latest_context_for_session s msg.session_id))))).0,
          acknowledged,
        )
  ]

  unfoldable pub get_properties : State Regexp B → Message → State Regexp B × Outcome
  get_properties s msg = elim (codec.object_id msg.params) [
    | none ↦ (s, invalid_params)
    | some object_id ↦
        let (s', reply) = call_juggler env s msg.session_id "Runtime.getObjectProperties" (
          some (
            object (
              ("objectId", str object_id)
              ∷ context_field (latest_context_for_session s msg.session_id)))) in
        if object_id == ""
        then (s, (some (env.marshal (object (("result", array []) ∷ []))), none))
        else (s', translated env codec reply)
  ]

  module _ (other : State Regexp B → State Regexp B) (polls : ℕ) (calls : CallCodec)
      (is_bidi : Bool) where
    unfoldable pub evaluate : State Regexp B → Message → State Regexp B × Outcome
    evaluate s msg = elim (codec.evaluate msg.params) [
      | none ↦ (s, invalid_params)
      | some p ↦
          let id =
            preferred_context s msg.session_id
              (requested_context s p.unique_context_id p.context_id) in
          let (s', usable) = usable_context other polls s msg.session_id id in
          if is_foreign s msg.session_id p.unique_context_id p.context_id
          then (s, no_context)
          else evaluate_in s' msg.session_id p usable
    ]

    -- Runtime.enable leaves `announce_latest` to a goroutine.
    unfoldable pub handle_runtime : State Regexp B → Option ℕ → Message → State Regexp B × Outcome
    handle_runtime s conn msg =
        if msg.method == "Runtime.evaluate"
        then evaluate s msg
        else if msg.method == "Runtime.callFunctionOn"
        then call_function_on env codec calls other is_bidi s msg
        else if msg.method == "Runtime.releaseObject"
        then release_object s msg
        else if msg.method == "Runtime.getProperties"
        then get_properties s msg
        else if msg.method == "Runtime.enable"
            || msg.method == "Runtime.releaseObjectGroup"
            || msg.method == "Runtime.runIfWaitingForDebugger"
            || msg.method == "Runtime.addBinding"
            || msg.method == "Runtime.discardConsoleEntries"
        then (s, acknowledged)
        else (s, method_not_found msg.method)

-- ===== src/Bridge/Domains/Runtime/Calls.antt =====
-- pkg/bridge/runtime.go: Runtime.callFunctionOn. On Juggler, a call of Puppeteer's query function stores its
-- selector, and the call of the user's function that follows is made on what the selector finds.
use Prim.Native.String.{◌++◌ as text_append}
use foxbridge.Common.{
  ℕ, ◌-◌, String, Bool, false, not, ◌&&◌, ◌||◌, List, [], ◌∷◌, ◌++◌, Option, none, some, string_key,
  nat_key, ◌==◌, if◌then◌else◌, ltb,
}
use foxbridge.Dict.{get, put, delete}
use foxbridge.Cdp.Message.{Message}
use foxbridge.Bridge.Json.{Json, str, flag, raw, object, array}
use foxbridge.Bridge.Fetch.Handler.{Reply, returned, failed, Outcome, refused, invalid_params}
use foxbridge.Bridge.State.{State, Env, call_juggler, next_ctx_id, latest_context_for_session}
use foxbridge.Bridge.Domains.Runtime.Values.{
  RuntimeCodec, or_empty, normal, no_context, context_field, is_foreign, requested_context,
  preferred_context, is_foreign_object,
}

pub record CallFunction : Type 0 where
  pub function_declaration : String
  pub object_id : String
  pub arguments : Option String
  pub return_by_value : Bool
  pub await_promise : Bool
  pub execution_context_id : ℕ
  pub unique_context_id : String

-- What is used of encoding/json, of strings (`Contains`, and `before`, which is the text up to the first place
-- that `Index` finds) and of fmt (`%q`).
pub record CallCodec : Type 0 where
  pub call : Option String → Option CallFunction
  pub arguments : String → Option (List String)
  pub value : String → String
  pub object_id : String → String
  pub contains : String → String → Bool
  pub before : String → String → String
  pub quoted : String → String

abbrev raws : List String → List Json
raws [] = []
raws (text ∷ l) = raw text ∷ raws l

abbrev list_or_empty : Option (List String) → List String
list_or_empty none = []
list_or_empty (some l) = l

abbrev or_false : Option Bool → Bool
or_false none = false
or_false (some b) = b

abbrev or_zero : Option ℕ → ℕ
or_zero none = 0
or_zero (some n) = n

abbrev if_some : {A : Type 0} → String → (A → Json) → Option A → List (String × Json)
if_some key json none = []
if_some key json (some a) = (key, json a) ∷ []

module _ (codec : CallCodec) where
  -- The declaration without the comment that names its source.
  unfoldable pub stripped : String → String
  stripped decl = codec.before (codec.before decl "\n//# sourceURL=") "\n//@ sourceURL="

  abbrev has_any : String → List String → Bool
  has_any decl [] = false
  has_any decl (part ∷ l) = codec.contains decl part || has_any decl l

  unfoldable pub is_internal : String → Bool
  is_internal decl = has_any decl (
      "addPageBinding" ∷ "puppeteer_" ∷ "__ariaQuery" ∷ "yield* iterable" ∷ "iterator.next()"
      ∷ "element.isConnected" ∷ "instanceof SVGElement" ∷ "IntersectionObserver" ∷ "getClientRects"
      ∷ "clientWidth" ∷ "checkVisibility" ∷ [])

  abbrev is_query : String → Bool
  is_query decl = codec.contains decl "cssQuerySelector"

  abbrev second_value : List String → String
  second_value (a ∷ b ∷ l) = codec.value b
  second_value _ = ""

  -- The selector of a call of the query function; empty if it is none.
  unfoldable pub selector_of : String → Option String → String
  selector_of decl none = ""
  selector_of decl (some arguments) =
      if is_query decl then second_value (list_or_empty (codec.arguments arguments)) else ""

  unfoldable pub combined_script : String → Bool → String → String
  combined_script selector all decl =
      if all
      then text_append "(function() { const els = document.querySelectorAll(" (
          text_append (codec.quoted selector)
            (text_append "); return (" (text_append decl ")(Array.from(els)); })()")))
      else text_append "(function() { const el = document.querySelector(" (
          text_append (codec.quoted selector)
            (text_append "); return (" (text_append decl ")(el); })()")))

  abbrev query_script : String → Bool → String
  query_script selector all =
      text_append (if all then "document.querySelectorAll(" else "document.querySelector(")
        (text_append (codec.quoted selector) ")")

abbrev bound : String → String → String
bound object_id decl =
    if object_id == ""
    then decl
    else text_append "function(__this__, ...args) { const fn = "
        (text_append decl "; return fn.call(__this__, ...args); }")

abbrev first_of : String → String → String
first_of a b = if a == "" then b else a

module _ {Regexp B : Type 0} where
  unfoldable pub forget_query : State Regexp B → String → State Regexp B
  forget_query s session_id = record s {
    last_query = delete s.last_query session_id;
    last_query_all = delete s.last_query_all session_id;
    last_query_skips = delete s.last_query_skips session_id;
  }

  unfoldable pub store_query : State Regexp B → String → String → Bool → State Regexp B
  store_query s session_id selector all = record s {
    last_query = put s.last_query session_id selector;
    last_query_all = put s.last_query_all session_id all;
    last_query_skips = put s.last_query_skips session_id (if all then 3 else 0);
  }

  -- An element that a query found stays, whoever releases it.
  unfoldable pub keep_object : State Regexp B → String → String → State Regexp B
  keep_object s session_id object_id =
      let (s', id) = next_ctx_id s in
      if object_id == "" then s else record s' {
        node_objects = put s'.node_objects id object_id;
        node_owners = put s'.node_owners id session_id;
        object_owners = put s'.object_owners object_id session_id;
      }

module _ {Regexp B : Type 0} (env : Env B) (runtime : RuntimeCodec) (codec : CallCodec)
    (other : State Regexp B → State Regexp B) where
  abbrev eval_in : State Regexp B → String → String → Bool → String → State Regexp B × Reply
  eval_in s session_id expression by_value id = call_juggler env s session_id "Runtime.evaluate" (
      some (
        object (
          (("expression", str expression) ∷ ("returnByValue", flag by_value) ∷ [])
          ++ context_field id)))

  -- Once more, in the context that is the latest by then, where the context was gone.
  abbrev retried : String → String → Bool → String → State Regexp B × Reply → State Regexp B × Reply
  retried session_id expression by_value id (s, returned result) = (s, returned result)
  retried session_id expression by_value id (s, failed message) =
      let s' = other s in
      if codec.contains message "Failed to find execution context"
      then eval_in s' session_id expression by_value
          (first_of (latest_context_for_session s' session_id) id)
      else (s, failed message)

  unfoldable pub call_combined :
      State Regexp B → String → String → CallFunction → String → State Regexp B × Outcome
  call_combined s session_id selector p decl =
      let all = or_false (get s.last_query_all session_id) in
      let s1 = record s {
        last_query = delete s.last_query session_id;
        last_query_all = delete s.last_query_all session_id;
      } in
      let expression = combined_script codec selector all decl in
      let id = latest_context_for_session s1 session_id in
      let (s2, reply) =
        retried session_id expression p.return_by_value id
          (eval_in s1 session_id expression p.return_by_value id) in
      (s2, normal env runtime reply)

  -- A call between the query and the user's function is answered without the backend.
  unfoldable pub call_pending :
      State Regexp B → String → String → CallFunction → String → State Regexp B × Outcome
  call_pending s session_id selector p decl =
      let skips = or_zero (get s.last_query_skips session_id) in
      if ltb 0 skips
      then (
        record s { last_query_skips = put s.last_query_skips session_id (skips - 1) },
        (some (env.marshal (object (("result", object (("type", str "object") ∷ [])) ∷ []))), none),
      )
      else call_combined s session_id selector p decl

  abbrev kept : String → State Regexp B × Reply → State Regexp B × Outcome
  kept session_id (s, failed message) = (s, refused 31999 message)
  kept session_id (s, returned result) =
      (keep_object s session_id (codec.object_id result), normal env runtime (returned result))

  unfoldable pub call_query : State Regexp B → String → String → String → State Regexp B × Outcome
  call_query s session_id selector decl =
      let all = codec.contains decl "cssQuerySelectorAll" in
      let s' = store_query s session_id selector all in
      kept session_id (
        eval_in s' session_id (query_script codec selector all) false
          (latest_context_for_session s' session_id))

  -- The arguments, with the object in front of them.
  abbrev final_arguments : CallFunction → Option String
  final_arguments p =
      if p.object_id == ""
      then p.arguments
      else some (
          env.marshal (
            array (
              object (("objectId", str p.object_id) ∷ [])
              ∷ raws
                  (elim p.arguments [ none ↦ [] | some l ↦ list_or_empty (codec.arguments l) ]))))

  abbrev has_objects : CallFunction → Option String → Bool
  has_objects p arguments =
      not (p.object_id == "")
      || (elim arguments [ none ↦ false | some text ↦ codec.contains text "\"objectId\"" ])

  unfoldable pub call_plain :
      Bool → State Regexp B → String → CallFunction → String → String → State Regexp B × Outcome
  call_plain is_bidi s session_id p decl requested =
      let arguments = final_arguments p in
      let latest = latest_context_for_session s session_id in
      let id =
        if has_objects p arguments && is_bidi
        then first_of requested latest
        else first_of latest requested in
      let (s', reply) = call_juggler env s session_id "Runtime.callFunction" (
        some (
          object (
            (("functionDeclaration", str (bound p.object_id decl))
              ∷ ("returnByValue", flag p.return_by_value)
              ∷ [])
            ++ (if is_bidi then ("awaitPromise", flag p.await_promise) ∷ [] else [])
            ++ context_field id
            ++ if_some "args" raw arguments))) in
      (s', normal env runtime reply)

  unfoldable pub call_checked :
      Bool → State Regexp B → String → CallFunction → State Regexp B × Outcome
  call_checked is_bidi s session_id p =
      let asked = requested_context s p.unique_context_id p.execution_context_id in
      let requested = if p.object_id == "" then preferred_context s session_id asked else asked in
      let decl = stripped codec p.function_declaration in
      let internal = not is_bidi && is_internal codec decl in
      let pending = if is_bidi then "" else or_empty (get s.last_query session_id) in
      let s' = if not (pending == "") && internal then forget_query s session_id else s in
      let selector = if is_bidi then "" else selector_of codec decl p.arguments in
      if not (pending == "") && not internal && not (codec.contains decl "cssQuerySelector")
      then call_pending s' session_id pending p decl
      else if not (selector == "")
      then call_query s' session_id selector decl
      else call_plain is_bidi s' session_id p decl requested

  unfoldable pub call_function_on : Bool → State Regexp B → Message → State Regexp B × Outcome
  call_function_on is_bidi s msg = elim (codec.call msg.params) [
    | none ↦ (s, invalid_params)
    | some p ↦
        if is_foreign s msg.session_id p.unique_context_id 0
        then (s, no_context)
        else if not (p.object_id == "") && is_foreign_object s msg.session_id p.object_id
        then (s, refused 31999 "object not found")
        else if is_foreign s msg.session_id p.unique_context_id p.execution_context_id
        then (s, no_context)
        else call_checked is_bidi s msg.session_id p
  ]

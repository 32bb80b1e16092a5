-- ===== src/Bridge/Domains/Runtime/Values.antt =====
-- pkg/bridge/runtime.go and page.go: contexts, objects and results of the Runtime domain. A result of the backend
-- that is the text `null`, for which the code stops the program, is left out.
use Prim.Native.String.{◌++◌ as text_append}
use foxbridge.Common.{
  ℕ, zero, suc, String, Bool, true, false, not, ◌&&◌, ◌||◌, List, [], ◌∷◌, Option, none, some,
  string_key, nat_key, ◌==◌, if◌then◌else◌, ltb,
}
use foxbridge.Dict.{get}
use foxbridge.Cdp.Session.{SessionInfo}
use foxbridge.Bridge.Json.{Json, str, flag, raw, object, array}
use foxbridge.Bridge.Fetch.Handler.{Reply, returned, failed, Outcome, refused}
use foxbridge.Bridge.Routing.{context_owned, unique_context_owned}
use foxbridge.Bridge.State.{State, Env, latest_context_for_session}

pub record Evaluate : Type 0 where
  pub expression : String
  pub return_by_value : Bool
  pub await_promise : Bool
  pub unique_context_id : String
  pub context_id : ℕ

-- The decoders. `result_fields` is the object of a result of the backend, `has_type` says whether a value is an
-- object with a type, and is `none` for one that is no object. `properties` is `none` where the result has none.
pub record RuntimeCodec : Type 0 where
  pub evaluate : Option String → Option Evaluate
  pub object_id : Option String → Option String
  pub result_fields : String → Option (List (String × String))
  pub has_type : String → Option Bool
  pub with_type : String → String
  pub properties : String → Option (List (String × String))

abbrev pub or_empty : Option String → String
or_empty none = ""
or_empty (some id) = id

abbrev pub frame_of : Option SessionInfo → String
frame_of none = ""
frame_of (some info) = info.frame_id

abbrev pub field_of : String → List (String × String) → Option String
field_of key [] = none
field_of key ((k, v) ∷ l) = let rest = field_of key l in if k == key then some v else rest

abbrev pub put_field : String → String → List (String × String) → List (String × String)
put_field key value [] = (key, value) ∷ []
put_field key value ((k, v) ∷ l) =
    let rest = put_field key value l in if k == key then (k, value) ∷ l else (k, v) ∷ rest

abbrev pub raw_fields : List (String × String) → List (String × Json)
raw_fields [] = []
raw_fields ((k, v) ∷ l) = (k, raw v) ∷ raw_fields l

module _ {B : Type 0} (env : Env B) (codec : RuntimeCodec) where
  abbrev pub rebuilt : List (String × String) → String → String
  rebuilt fields value = env.marshal (object (raw_fields (put_field "result" value fields)))

  abbrev pub typed : String → List (String × String) → String → Option Bool → String
  typed result fields value none = result
  typed result fields value (some has_type) =
      if has_type then result else rebuilt fields (codec.with_type value)

  abbrev pub normalized : String → List (String × String) → Option String → String
  normalized result fields none = rebuilt fields "{\"type\":\"undefined\"}"
  normalized result fields (some value) =
      if value == "null"
      then rebuilt fields "{\"type\":\"undefined\"}"
      else typed result fields value (codec.has_type value)

  abbrev pub of_fields : String → Option (List (String × String)) → String
  of_fields result none = result
  of_fields result (some fields) = normalized result fields (field_of "result" fields)

  -- A result of the backend without a value, or whose value has no type, is given the type undefined.
  unfoldable pub normalize_runtime_result : String → String
  normalize_runtime_result result = of_fields result (codec.result_fields result)

  abbrev pub normal : Reply → Outcome
  normal (failed message) = refused 31999 message
  normal (returned result) = (some (normalize_runtime_result result), none)

  abbrev pub property : String × String → Json
  property (name, value) = object (
      ("name", str name)
      ∷ ("value", raw value)
      ∷ ("configurable", flag true)
      ∷ ("enumerable", flag true)
      ∷ ("writable", flag true)
      ∷ ("isOwn", flag true)
      ∷ [])

  abbrev pub property_list : List (String × String) → List Json
  property_list [] = []
  property_list (p ∷ l) = property p ∷ property_list l

  abbrev pub listed : String → Option (List (String × String)) → Outcome
  listed result none = (some result, none)
  listed result (some l) =
      (some (env.marshal (object (("result", array (property_list l)) ∷ []))), none)

  abbrev pub translated : Reply → Outcome
  translated (failed message) = refused 31999 message
  translated (returned result) = listed result (codec.properties result)

abbrev pub no_context : Outcome
no_context = refused 31999 "execution context not found"

abbrev pub context_field : String → List (String × Json)
context_field id = if id == "" then [] else ("executionContextId", str id) ∷ []

abbrev pub awaited : Evaluate → String
awaited p =
    if p.await_promise
    then text_append "(async () => { return await (" (text_append p.expression ") })()")
    else p.expression

abbrev pub has_value : String → List (ℕ × String) → Bool
has_value id [] = false
has_value id ((k, v) ∷ l) = let rest = has_value id l in if v == id then true else rest

module _ {Regexp B : Type 0} where
  -- The context of another session, by its name or by its number.
  unfoldable pub is_foreign : State Regexp B → String → String → ℕ → Bool
  is_foreign s session_id unique_id context_id =
      not (unique_context_owned s.ctx_unique_owners session_id unique_id)
      || (ltb 0 context_id && not (context_owned s.ctx_owners session_id context_id))

  unfoldable pub requested_context : State Regexp B → String → ℕ → String
  requested_context s unique_id context_id =
      if unique_id == "" && ltb 0 context_id then or_empty (get s.ctx_map context_id) else unique_id

  -- The latest context of the session before the one that is asked for.
  unfoldable pub preferred_context : State Regexp B → String → String → String
  preferred_context s session_id requested =
      let latest = latest_context_for_session s session_id in
      if latest == "" then requested else latest

  abbrev pub object_owner : State Regexp B → String → String
  object_owner s object_id = or_empty (get s.object_owners object_id)

  -- An object that another session has.
  unfoldable pub is_foreign_object : State Regexp B → String → String → Bool
  is_foreign_object s session_id object_id =
      let owner = object_owner s object_id in not (owner == "") && not (owner == session_id)

module _ {Regexp B : Type 0} (other : State Regexp B → State Regexp B) where
  -- The rounds of `waitForContext`: `polls` of them after the first.
  unfoldable pub context_rounds :
      ℕ → State Regexp B → String → String → State Regexp B × Option String
  context_rounds zero s session_id prior =
      let current = latest_context_for_session s session_id in
      (s, if not (current == "") && not (current == prior) then some current else none)
  context_rounds (suc polls) s session_id prior =
      let current = latest_context_for_session s session_id in
      let rest = context_rounds polls (other s) session_id prior in
      if not (current == "") && not (current == prior) then (s, some current) else rest

  unfoldable pub wait_for_context :
      ℕ → State Regexp B → String → String → State Regexp B × Option String
  wait_for_context polls s session_id prior =
      if session_id == "" then (s, none) else context_rounds polls s session_id prior

  -- `none` where there is no context to be had in time.
  unfoldable pub usable_context :
      ℕ → State Regexp B → String → String → State Regexp B × Option String
  usable_context polls s session_id id =
      if id == "" && not (session_id == "")
      then wait_for_context polls s session_id ""
      else (s, some id)

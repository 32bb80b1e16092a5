-- ===== src/Bridge/Contexts.antt =====
-- pkg/bridge/events.go: the events on execution contexts. Juggler names a context by a text and CDP by
-- a number.
pub mod Numbers
use Prim.Native.String.{◌++◌ as text_append}
use foxbridge.Common.{
  ℕ, String, Bool, true, false, not, ◌&&◌, List, [], ◌∷◌, ◌++◌, Option, none, some, string_key,
  nat_key, ◌==◌, if◌then◌else◌, is_some, ltb,
}
use foxbridge.Dict.{Dict, get, put, delete, delete_where, bindings}
use foxbridge.Cdp.Session.{SessionInfo, get_by_juggler_session, set_frame_id_if_empty}
use foxbridge.Bridge.Json.{Json, str, flag, num, object}
use foxbridge.Bridge.State.{
  State, Env, is_owned_by, IsolatedWorldInfo, emit, next_ctx_id, clear_contexts_for_session,
  resolve_cdp_session, cdp_frame,
}

-- The parameters of Runtime.executionContextCreated; those that are missing are empty.
pub record ContextCreated : Type 0 where
  pub execution_context_id : String
  pub frame_id : String
  pub name : String

-- The first key of the loop over `ctxMap` whose context is `id`; 0 if there is none.
unfoldable pub numeric_id : String → List (ℕ × String) → ℕ
numeric_id id [] = 0
numeric_id id ((k, v) ∷ l) = let rest = numeric_id id l in if v == id then k else rest

-- All those keys.
unfoldable pub numeric_ids : String → List (ℕ × String) → List ℕ
numeric_ids id [] = []
numeric_ids id ((k, v) ∷ l) = let rest = numeric_ids id l in if v == id then k ∷ rest else rest

abbrev pub context_params : ℕ → String → String → Bool → String → String → Json
context_params id name unique_id is_default type frame_id = object (
    (
      "context",
      object (
          ("id", num id)
          ∷ ("origin", str "")
          ∷ ("name", str name)
          ∷ ("uniqueId", str unique_id)
          ∷ (
            "auxData",
            object (
                ("isDefault", flag is_default)
                ∷ ("type", str type)
                ∷ ("frameId", str frame_id)
                ∷ []),
          )
          ∷ []),
    )
    ∷ [])

abbrev destroyed_params : ℕ → String → Json
destroyed_params id unique_id =
    object (("executionContextId", num id) ∷ ("executionContextUniqueId", str unique_id) ∷ [])

abbrev pub unique_id_of : String → String → String
unique_id_of frame_id world_name =
    text_append (text_append (text_append "isolated-" frame_id) "-") world_name

abbrev worlds_of : Option (List IsolatedWorldInfo) → List IsolatedWorldInfo
worlds_of none = []
worlds_of (some worlds) = worlds

module _ {Regexp B : Type 0} where
  -- Neither map has the owner of a context that is not registered yet.
  unfoldable pub register_context : State Regexp B → ℕ → String → String → State Regexp B
  register_context s id context_id session_id = record s {
    ctx_map = put s.ctx_map id context_id;
    ctx_owners = put s.ctx_owners id session_id;
  }

  abbrev note_frame : State Regexp B → String → String → Option SessionInfo → State Regexp B
  note_frame s juggler_session_id frame_id (some info) =
      if info.frame_id == ""
      then record s { sessions = set_frame_id_if_empty s.sessions info.session_id frame_id }
      else s
  note_frame s juggler_session_id frame_id none =
      if is_some (get s.pending_frame_ids juggler_session_id)
      then s
      else record s { pending_frame_ids = put s.pending_frame_ids juggler_session_id frame_id }

  -- The frame of a first context is that of its session, which may be unknown as yet.
  unfoldable pub learn_frame : State Regexp B → String → String → State Regexp B
  learn_frame s juggler_session_id frame_id =
      if frame_id == ""
      then s
      else note_frame s juggler_session_id frame_id
          (get_by_juggler_session s.sessions juggler_session_id)

  abbrev forget_context : State Regexp B → ℕ → State Regexp B
  forget_context s id =
      if ltb 0 id
      then record s { ctx_map = delete s.ctx_map id; ctx_owners = delete s.ctx_owners id }
      else s

module _ {Regexp B : Type 0} (env : Env B) where
  unfoldable pub contexts_cleared : State Regexp B → String → State Regexp B
  contexts_cleared s juggler_session_id =
      let session_id = resolve_cdp_session s juggler_session_id in
      if session_id == ""
      then s
      else let s' =
          emit env (clear_contexts_for_session s session_id) "Runtime.executionContextsCleared"
            (object []) session_id in
        record s' { pending_context_clear = put s'.pending_context_clear session_id true }

  unfoldable pub create_isolated :
      State Regexp B → String → String → String → IsolatedWorldInfo → State Regexp B
  create_isolated s session_id context_id frame_id world =
      let (s1, id) = next_ctx_id s in
      let s2 = register_context s1 id context_id session_id in
      let unique_id = unique_id_of frame_id world.world_name in
      emit env (record s2 { ctx_unique_owners = put s2.ctx_unique_owners unique_id session_id })
        "Runtime.executionContextCreated"
        (context_params id world.world_name unique_id false "isolated" frame_id) session_id

  unfoldable pub create_worlds :
      State Regexp B → String → String → String → List IsolatedWorldInfo → State Regexp B
  create_worlds s session_id context_id frame_id [] = s
  create_worlds s session_id context_id frame_id (world ∷ l) =
      create_worlds (create_isolated s session_id context_id frame_id world) session_id context_id
        frame_id l

  unfoldable pub create_default : State Regexp B → String → ContextCreated → State Regexp B × String
  create_default s juggler_session_id ev =
      let session_id = resolve_cdp_session s juggler_session_id in
      let (s1, id) = next_ctx_id s in
      let s2 =
        register_context (learn_frame s1 juggler_session_id ev.frame_id) id ev.execution_context_id
          session_id in
      let s3 = record s2 {
        latest_ctx = put s2.latest_ctx juggler_session_id ev.execution_context_id;
        ctx_unique_owners = put s2.ctx_unique_owners ev.execution_context_id session_id;
      } in
      let frame_id = cdp_frame s3 juggler_session_id ev.frame_id in
      (
        emit env s3 "Runtime.executionContextCreated"
            (context_params id ev.name ev.execution_context_id true "default" frame_id) session_id,
        frame_id,
      )

  unfoldable pub context_created : State Regexp B → String → ContextCreated → State Regexp B
  context_created s juggler_session_id ev =
      let session_id = resolve_cdp_session s juggler_session_id in
      let (s', frame_id) = create_default s juggler_session_id ev in
      if session_id == ""
      then s'
      else create_worlds s' session_id ev.execution_context_id frame_id
          (worlds_of (get s'.isolated_worlds session_id))

  unfoldable pub destroy_derived : State Regexp B → String → ℕ → List ℕ → State Regexp B
  destroy_derived s session_id numeric [] = s
  destroy_derived s session_id numeric (id ∷ l) =
      let s' =
        if not (id == numeric) && ltb 0 id
        then emit env s "Runtime.executionContextDestroyed"
            (destroyed_params id (text_append "isolated-derived-" (env.decimal id))) session_id
        else s in
      destroy_derived s' session_id numeric l

  -- BiDi drops every number of the context, Juggler the first.
  unfoldable pub context_destroyed : Bool → State Regexp B → String → String → State Regexp B
  context_destroyed is_bidi s juggler_session_id context_id =
      let session_id = resolve_cdp_session s juggler_session_id in
      let numeric = numeric_id context_id (bindings s.ctx_map) in
      let ids = numeric_ids context_id (bindings s.ctx_map) in
      let dropped = record s {
        ctx_owners =
            delete_where (λ k owner. is_owned_by context_id (get s.ctx_map k)) s.ctx_owners;
        ctx_map = delete_where (λ k id. id == context_id) s.ctx_map;
      } in
      let told : State Regexp B → State Regexp B = λ x.
        emit env x "Runtime.executionContextDestroyed" (destroyed_params numeric context_id)
          session_id in
      if is_bidi
      then destroy_derived (told dropped) session_id numeric ids
      else told (forget_context s numeric)

-- ===== src/Bridge/Targets.antt =====
-- pkg/bridge/target.go: `handleTarget`.
pub mod Create
pub mod Replies
pub mod Attached
pub mod Strangers
use Prim.Native.String.{◌++◌ as text_append}
use foxbridge.Common.{
  ℕ, String, Bool, true, false, not, ◌&&◌, ◌||◌, List, [], ◌∷◌, ◌++◌, Option, none, some, ◌>>=◌,
  string_key, nat_key, ◌==◌, if◌then◌else◌, is_some,
}
use foxbridge.Dict.{Dict, get, bindings}
use foxbridge.Heap.{load}
use foxbridge.Cdp.Message.{Message}
use foxbridge.Cdp.Session.{
  SessionInfo, zero_info, add, remove, get_session, get_by_target, all_sessions,
  get_browser_contexts,
}
use foxbridge.Bridge.Ownership.{same}
use foxbridge.Bridge.Ownership.Connections.{set_discover, set_auto_attach}
use foxbridge.Bridge.Ownership.Register.{register_browser_session}
use foxbridge.Bridge.Ownership.Queries.{
  owner_for_target, record_for_target, session_owned, owned_pairs,
}
use foxbridge.Bridge.Json.{Json, str, flag, object, array}
use foxbridge.Bridge.Fetch.Handler.{Reply, returned, failed, Outcome, refused, invalid_params}
use foxbridge.Bridge.State.{
  State, Env, emit, call_juggler, new_uuid, cdp_browser_context_id, synthetic_default,
}
use foxbridge.Bridge.Release.{close_record}
use foxbridge.Bridge.Attach.Announce.{emit_auto_attach_pair, emit_page_attach, publish_owned_pair}
use foxbridge.Bridge.Targets.Replies.{
  TargetCodec, info_json, infos_json, texts_json, first_or_empty, created_json, attached_json,
  browser_json, session_json, not_found, acknowledged, success, contexts_disabled, acknowledge,
  marshal_result, requested_discover,
}
use foxbridge.Bridge.Targets.Attached.{
  owned_target, is_listed, listed, announce_listed, auto_attach_browser, auto_attach_session,
}
use foxbridge.Bridge.Targets.Create.{CreateTarget, create_target}

module _ {Regexp B : Type 0} (env : Env B) (codec : TargetCodec) where
  unfoldable pub set_discover_targets :
      State Regexp B → Option ℕ → Message → State Regexp B × Outcome
  set_discover_targets s conn msg = elim (requested_discover codec msg.params) [
    | none ↦ (s, invalid_params)
    | some discover ↦
        let s' : State Regexp B = record s { ownership = set_discover s.ownership conn discover } in
        (
          if is_some conn && not discover
              then s'
              else announce_listed env s' conn (all_sessions s'.sessions),
          acknowledged,
        )
  ]

  unfoldable pub set_auto_attach_targets :
      State Regexp B → Option ℕ → Message → State Regexp B × Outcome
  set_auto_attach_targets s conn msg = (
    if msg.session_id == ""
        then auto_attach_browser env s conn (codec.auto_attach msg.params)
        else auto_attach_session env s msg.session_id,
    acknowledged,
  )

  abbrev close_unowned : State Regexp B → String → Option SessionInfo → State Regexp B × Outcome
  close_unowned s target_id none = (s, not_found target_id)
  close_unowned s target_id (some info) =
      (record s { sessions = remove s.sessions info.session_id }, success)

  abbrev close_at : State Regexp B → Option ℕ → String → Option ℕ → State Regexp B × Outcome
  close_at s conn target_id none =
      if is_some conn
      then (s, not_found target_id)
      else close_unowned s target_id (get_by_target s.sessions target_id)
  close_at s conn target_id (some p) = (close_record env s p true, success)

  unfoldable pub close_target : State Regexp B → Option ℕ → Message → State Regexp B × Outcome
  close_target s conn msg = elim (codec.target_id msg.params) [
    | none ↦ (s, invalid_params)
    | some target_id ↦
        if not (owned_target s conn target_id)
        then (s, not_found target_id)
        else close_at s conn target_id (record_for_target s.ownership target_id)
  ]

  unfoldable pub create_browser_context : State Regexp B → Option ℕ → State Regexp B × Outcome
  create_browser_context s (some conn) = (s, contexts_disabled)
  create_browser_context s none =
      let (s', reply) = call_juggler env s "" "Browser.createBrowserContext" none in
      (
        s',
        elim reply [
          | failed message ↦ refused 31999 message
          | returned result ↦
              marshal_result env
                (object (("browserContextId", str (codec.created_context result)) ∷ []))
        ],
      )

  unfoldable pub dispose_browser_context :
      State Regexp B → Option ℕ → Message → State Regexp B × Outcome
  dispose_browser_context s (some conn) msg = (s, contexts_disabled)
  dispose_browser_context s none msg = elim (codec.context_id msg.params) [
    | none ↦ (s, invalid_params)
    | some id ↦
        let (s', reply) =
          call_juggler env s "" "Browser.removeBrowserContext"
            (some (object (("browserContextId", str id) ∷ []))) in
        (s', acknowledge reply)
  ]

  unfoldable pub get_targets : State Regexp B → Option ℕ → Outcome
  get_targets s conn =
      marshal_result env (
        object (("targetInfos", array (infos_json (listed s conn (all_sessions s.sessions)))) ∷ []))

  unfoldable pub attach_new : State Regexp B → String → State Regexp B × Outcome
  attach_new s target_id =
      let (s', session_id) = new_uuid env s in
      let info : SessionInfo = record zero_info {
        session_id = session_id;
        juggler_session_id = target_id;
        target_id = target_id;
        browser_context_id = cdp_browser_context_id "";
        type = "page";
      } in
      (
        emit env (record s' { sessions = add s'.sessions (some info) }) "Target.attachedToTarget"
            (attached_json session_id target_id) "",
        marshal_result env (session_json session_id),
      )

  unfoldable pub attach_to_target : State Regexp B → Option ℕ → Message → State Regexp B × Outcome
  attach_to_target s conn msg = elim (codec.target_id msg.params) [
    | none ↦ (s, invalid_params)
    | some target_id ↦
        if not (owned_target s conn target_id)
        then (s, refused 31999 "target not found")
        else elim (get_by_target s.sessions target_id) [
          | none ↦ attach_new s target_id
          | some info ↦ (s, marshal_result env (session_json info.session_id))
        ]
  ]

  unfoldable pub attach_to_browser_target : State Regexp B → Option ℕ → State Regexp B × Outcome
  attach_to_browser_target s conn =
      let (s', session_id) = new_uuid env s in
      let info : SessionInfo = record zero_info { session_id = session_id; type = "browser" } in
      (
        record s' {
          sessions = add s'.sessions (some info);
          ownership = register_browser_session s'.ownership conn session_id;
        },
        marshal_result env (session_json session_id),
      )

  unfoldable pub activate_target : State Regexp B → Option ℕ → Message → Outcome
  activate_target s conn msg = elim (codec.target_id msg.params) [
    | none ↦ refused 31999 "target not found"
    | some target_id ↦
        if owned_target s conn target_id then acknowledged else refused 31999 "target not found"
  ]

  unfoldable pub detach_from_target : State Regexp B → Option ℕ → Message → Outcome
  detach_from_target s conn msg =
      let session_id = if is_some msg.params then codec.session_id_or_empty msg.params else "" in
      if session_owned s.ownership conn session_id
      then acknowledged
      else refused 31999 "session not found"

  unfoldable pub browser_contexts : State Regexp B → Option ℕ → Outcome
  browser_contexts s conn =
      let contexts =
        if is_some conn then synthetic_default ∷ [] else get_browser_contexts s.sessions in
      marshal_result env (
        object (
          ("browserContextIds", array (texts_json contexts))
          ∷ ("defaultBrowserContextId", str (first_or_empty contexts))
          ∷ []))

  unfoldable pub target_info : State Regexp B → Option ℕ → Message → Outcome
  target_info s conn msg =
      let target_id = codec.target_id_or_empty msg.params in
      if target_id == ""
      then marshal_result env browser_json
      else if not (owned_target s conn target_id)
      then refused 31999 "target not found"
      else elim (get_by_target s.sessions target_id) [
        | none ↦ refused 31999 "target not found"
        | some info ↦ marshal_result env (object (("targetInfo", info_json info) ∷ []))
      ]

  module _ (other : State Regexp B → State Regexp B) (polls polls' : ℕ) where
    abbrev create : State Regexp B → Option ℕ → Option CreateTarget → State Regexp B × Outcome
    create s conn none = (s, invalid_params)
    create s conn (some params) =
        create_target env other codec.created_target polls polls' s conn params

    unfoldable pub handle_target : State Regexp B → Option ℕ → Message → State Regexp B × Outcome
    handle_target s conn msg =
        if msg.method == "Target.setDiscoverTargets"
        then set_discover_targets s conn msg
        else if msg.method == "Target.setAutoAttach"
        then set_auto_attach_targets s conn msg
        else if msg.method == "Target.createTarget"
        then create s conn (codec.create msg.params)
        else if msg.method == "Target.closeTarget"
        then close_target s conn msg
        else if msg.method == "Target.createBrowserContext"
        then create_browser_context s conn
        else if msg.method == "Target.disposeBrowserContext"
        then dispose_browser_context s conn msg
        else if msg.method == "Target.getTargets"
        then (s, get_targets s conn)
        else if msg.method == "Target.attachToTarget"
        then attach_to_target s conn msg
        else if msg.method == "Target.attachToBrowserTarget"
        then attach_to_browser_target s conn
        else if msg.method == "Target.activateTarget"
        then (s, activate_target s conn msg)
        else if msg.method == "Target.detachFromTarget"
        then (s, detach_from_target s conn msg)
        else if msg.method == "Target.getBrowserContexts"
        then (s, browser_contexts s conn)
        else if msg.method == "Target.getTargetInfo"
        then (s, target_info s conn msg)
        else (s, refused 32600 (text_append "method not found: " msg.method))

-- ===== src/Bridge/Targets/Create.antt =====
-- pkg/bridge/target.go: Target.createTarget. Other goroutines run while it waits for the new page and between
-- the rounds of its two loops: `other` is what they do to the state in one of these waits. `polls` and
-- `polls'` are the numbers of rounds that the clock leaves to the loops.
use Prim.Native.String.{◌++◌ as text_append}
use foxbridge.Common.{
  ℕ, zero, suc, String, Bool, true, not, ◌&&◌, ◌||◌, [], ◌∷◌, ◌++◌, Option, none, some, string_key,
  nat_key, ◌==◌, if◌then◌else◌, is_some,
}
use foxbridge.Cdp.Session.{SessionInfo, get_by_target}
use foxbridge.Bridge.Ownership.{same}
use foxbridge.Bridge.Ownership.Connections.{connection_closed as is_gone}
use foxbridge.Bridge.Ownership.Claims.{
  begin_create, finish_create, claim_target, cancel_target, expire_claim,
}
use foxbridge.Bridge.Ownership.Queries.{record_details}
use foxbridge.Bridge.Json.{Json, str, object}
use foxbridge.Bridge.Fetch.Handler.{Reply, returned, failed, Outcome, refused}
use foxbridge.Bridge.State.{State, Env, call_juggler, new_uuid, is_synthetic_default}
use foxbridge.Bridge.Release.{close_record}
use foxbridge.Bridge.Attach.Announce.{publish_owned_pair}
use foxbridge.Bridge.Deterministic.{apply_deterministic_prelude}

-- What is decoded of a request to create a page.
pub record CreateTarget : Type 0 where
  pub url : String
  pub browser_context_id : String

abbrev page_session_id : Option SessionInfo → Option String
page_session_id none = none
page_session_id (some info) = if info.type == "page" then some info.session_id else none

abbrev ready : Option SessionInfo → Option (String × String)
ready none = none
ready (some info) = if info.frame_id == "" then none else some (info.session_id, info.frame_id)

abbrev target_json : String → Json
target_json target_id = object (("targetId", str target_id) ∷ [])

module _ {Regexp B : Type 0} (env : Env B) (other : State Regexp B → State Regexp B) where
  unfoldable pub wait_for_page_session :
      ℕ → State Regexp B → String → State Regexp B × Option String
  wait_for_page_session zero s target_id = (s, none)
  wait_for_page_session (suc polls) s target_id =
      let rest = wait_for_page_session polls (other s) target_id in
      let found = page_session_id (get_by_target s.sessions target_id) in
      if is_some found then (s, found) else rest

  abbrev navigation_error : String → String → Reply → Option String
  navigation_error target_id url (returned result) = none
  navigation_error target_id url (failed message) = some (
      text_append "navigate new target "
        (text_append target_id (text_append " to " (text_append url (text_append ": " message)))))

  -- `none` is a nil error.
  unfoldable pub navigate_new_target :
      ℕ → State Regexp B → String → String → State Regexp B × Option String
  navigate_new_target zero s target_id url = (
    s,
    some (
        text_append "target "
          (text_append target_id (text_append " not ready for initial navigation to " url))),
  )
  navigate_new_target (suc polls) s target_id url =
      let rest = navigate_new_target polls (other s) target_id url in
      elim (ready (get_by_target s.sessions target_id)) [
        | none ↦ rest
        | some (session_id, frame_id) ↦
            let (s', reply) =
              call_juggler env s session_id "Page.navigate"
                (some (object (("frameId", str frame_id) ∷ ("url", str url) ∷ []))) in
            (s', navigation_error target_id url reply)
      ]

  abbrev close_found : State Regexp B → Option ℕ → State Regexp B
  close_found s none = s
  close_found s (some p) = close_record env s p true

  -- `cancelTarget`, and what it finds is closed.
  unfoldable pub cancel_created : State Regexp B → String → State Regexp B
  cancel_created s target_id =
      let (r, p) = cancel_target s.ownership target_id in close_found (record s { ownership = r }) p

  abbrev publish_claimed : State Regexp B → Option ℕ → Option ℕ × Option ℕ × Bool → State Regexp B
  publish_claimed s conn (owner, none, cancelled) = s
  publish_claimed s conn (owner, some pair, cancelled) =
      if same owner conn then publish_owned_pair env s pair else s

  -- The claim is settled: `none` is a client that has gone meanwhile.
  unfoldable pub settle_claim :
      State Regexp B → Option ℕ → String → Option ℕ → Option (State Regexp B) × State Regexp B
  settle_claim s conn target_id none =
      if is_gone s.ownership conn then (none, cancel_created s target_id) else (some s, s)
  settle_claim s conn target_id (some p) =
      let (owner, pair, cancelled) = record_details s.ownership (some p) in
      if is_gone s.ownership conn || cancelled
      then (none, close_record env s p true)
      else (some (publish_claimed s conn (owner, pair, cancelled)), s)

  unfoldable pub open_url : ℕ → ℕ → State Regexp B → String → String → State Regexp B × Outcome
  open_url polls polls' s target_id url =
      let (s1, session) = wait_for_page_session polls s target_id in
      let s2 : State Regexp B = elim session [
        | none ↦ s1
        | some id ↦ apply_deterministic_prelude env s1 id
      ] in
      let (s3, error) = navigate_new_target polls' s2 target_id url in
      if url == "" || url == "about:blank"
      then (s, (some (env.marshal (target_json target_id)), none))
      else elim error [
        | none ↦ (s3, (some (env.marshal (target_json target_id)), none))
        | some message ↦ (cancel_created s3 target_id, refused 31999 message)
      ]

  abbrev after_claim :
      ℕ → ℕ → String → String → Option (State Regexp B) × State Regexp B → State Regexp B × Outcome
  after_claim polls polls' target_id url (none, s) = (s, refused 31999 "connection closed")
  after_claim polls polls' target_id url (some s, _) = open_url polls polls' s target_id url

  abbrev arm_timer : State Regexp B → Option ℕ → Option ℕ → String → ℕ → State Regexp B
  arm_timer s conn record_at target_id generation =
      if not (is_some record_at) && is_some conn
      then record s { claim_timers = s.claim_timers ++ (target_id, generation) ∷ [] }
      else s

  unfoldable pub claim_created :
      ℕ → ℕ → State Regexp B → Option ℕ → String → String → ℕ → State Regexp B × Outcome
  claim_created polls polls' s conn target_id url generation =
      let (r, record_at) = claim_target s.ownership conn target_id generation in
      let s' = arm_timer (record s { ownership = r }) conn record_at target_id generation in
      after_claim polls polls' target_id url (settle_claim s' conn target_id record_at)

  abbrev finished : ℕ → State Regexp B × Outcome → State Regexp B × Outcome
  finished generation (s, outcome) =
      (record s { ownership = finish_create s.ownership generation }, outcome)

  abbrev name_target : State Regexp B → String → State Regexp B × String
  name_target s target_id = if target_id == "" then new_uuid env s else (s, target_id)

  abbrev context_params : String → Json
  context_params id =
      object (if is_synthetic_default id then [] else ("browserContextId", str id) ∷ [])

  -- `decode_target` reads the target id of the reply, which is empty where there is none.
  unfoldable pub create_target :
      (String → String)
      → ℕ
      → ℕ
      → State Regexp B
      → Option ℕ
      → CreateTarget
      → State Regexp B × Outcome
  create_target decode_target polls polls' s conn params =
      let (r, generation) = begin_create s.ownership conn in
      let (s1, reply) =
        call_juggler env (record s { ownership = r }) "" "Browser.newPage"
          (some (context_params params.browser_context_id)) in
      let s2 = other s1 in
      if is_some conn && not (is_synthetic_default params.browser_context_id)
      then (s, refused 31999 "browser contexts are disabled")
      else finished generation (elim reply [
        | failed message ↦ (s2, refused 31999 message)
        | returned result ↦
            let (s3, target_id) = name_target s2 (decode_target result) in
            claim_created polls polls' s3 conn target_id params.url generation
      ])

  -- A timer of ten seconds fires. The page of a claim that it drops is closed when it attaches.
  unfoldable pub fire_timer : State Regexp B → String → ℕ → State Regexp B
  fire_timer s target_id generation =
      let (r, expired) = expire_claim s.ownership target_id generation in record s { ownership = r }

-- ===== src/Bridge/Dispatch/Isolation.antt =====
-- pkg/bridge/bridge.go: what a client's message can reach, and how it is answered.
use text.Mathlib.Text.{starts_with}
use foxbridge.Common.{
  not, if◌then◌else◌, ℕ, String, ◌≡◌, ◌≢◌, refl, Bool, true, false, Option, none, some, arith,
  string_key, is_some, List, [], ◌∷◌, ◌++◌, inl, inr, Option-cases,
}
use foxbridge.Cdp.Message.{Message, Error}
use foxbridge.Bridge.Ownership.{Registry}
use foxbridge.Bridge.Ownership.Connections.{state}
use foxbridge.Bridge.Ownership.Queries.{session_owner, session_owned, is_browser_session}
use foxbridge.Bridge.Ownership.Cleanup.{close_connection}
use foxbridge.Bridge.Ownership.Steps.{Op, run}
use foxbridge.Bridge.Ownership.Closed.{
  gone-run, gone-state, gone-session_owned, close_connection-gone,
}
use foxbridge.Bridge.Dispatch.{
  Handle, Handler, target, page, runtime, input, network, emulation, dom, accessibility, console,
  fetch, performance, io, css, dom_storage, stub, dispatch, target_scoped_method, authorize,
  server_error, send_response, handle_authorized, handle_message,
}

-- A handler that acts on one page: all but those of the Target domain and of the other domains.
abbrev pub acts_on_page : Handler → Bool
acts_on_page target = false
acts_on_page stub = false
acts_on_page _ = true

-- The call of a handler is one that the isolation of clients allows.
abbrev pub IsAllowed : Registry → ℕ → Handler → Message → Type 0
IsAllowed r c h msg =
    (msg.method ≢ "Browser.close")
    × (msg.session_id ≢ "" → session_owner r msg.session_id ≡ some c)
    × (acts_on_page h ≡ true
        → (msg.session_id ≢ "") × (is_browser_session r msg.session_id ≡ false))

-- A prefix of the `switch` that is one of the table, too.
later :
    (b : Bool) (h k : Handler) (rest : Bool)
    → (acts_on_page k ≡ true → rest ≡ true)
    → acts_on_page (if b then h else k) ≡ true
    → (if b then true else rest) ≡ true
later true h k rest f p = refl
later false h k rest f p = f p

after_target :
    (b : Bool) (k : Handler) (rest : Bool)
    → (acts_on_page k ≡ true → rest ≡ true)
    → acts_on_page (if b then target else k) ≡ true
    → rest ≡ true
after_target true k rest f p = ground arith
after_target false k rest f p = f p

acts_on_page-dispatch :
    (m : String) → acts_on_page (dispatch m) ≡ true → target_scoped_method m ≡ true
unfolding dispatch target_scoped_method
acts_on_page-dispatch m = after_target (starts_with m "Target.") _ _ (
    later (starts_with m "Page.") page _ _ (
      later (starts_with m "Runtime.") runtime _ _ (
        later (starts_with m "Input.") input _ _ (
          later (starts_with m "Network.") network _ _ (
            later (starts_with m "Emulation.") emulation _ _ (
              later (starts_with m "DOM.") dom _ _ (
                later (starts_with m "Accessibility.") accessibility _ _ (
                  later (starts_with m "Console.") console _ _ (
                    later (starts_with m "Fetch.") fetch _ _ (
                      later (starts_with m "Performance.") performance _ _ (
                        later (starts_with m "IO.") io _ _ (
                          later (starts_with m "CSS.") css _ _ (
                            later (starts_with m "DOMStorage.") dom_storage _ _
                              (λ p. p))))))))))))))

owned-owner :
    (r : Registry) (c : ℕ) (s : String)
    → s ≢ ""
    → session_owned r (some c) s ≡ true
    → session_owner r s ≡ some c
unfolding session_owned
owned-owner r c s n h = ground arith

authorize-IsAllowed :
    (r : Registry) (c : ℕ) (msg : Message)
    → authorize r (some c) msg ≡ none
    → IsAllowed r c (dispatch msg.method) msg
unfolding authorize
authorize-IsAllowed r c msg h =
    let n : msg.session_id ≢ "" → session_owned r (some c) msg.session_id ≡ true =
      λ n. ground arith in
    (
      ground arith,
      λ m. owned-owner r c msg.session_id m (n m),
      λ p. let q = acts_on_page-dispatch msg.method p in (ground arith, ground arith),
    )

authorized-agree :
    {S : Type 0} (handle handle' : Handle S) (r : Registry) (s : S) (sent : List (ℕ × Message))
    (c : ℕ) (msg : Message) (refused : Option Error)
    → (refused ≡ none
        → handle (dispatch msg.method) r s (some c) msg
          ≡ handle' (dispatch msg.method) r s (some c) msg)
    → handle_authorized handle refused r s sent (some c) msg
      ≡ handle_authorized handle' refused r s sent (some c) msg
unfolding handle_authorized
authorized-agree handle handle' r s sent c msg (some e) h = refl
authorized-agree handle handle' r s sent c msg none h = rw (h refl)

-- What a client's message does depends on no handler's behaviour outside the calls that are allowed
-- to that client: two families of handlers that agree on the allowed calls have the same effect,
-- send the same answer and panic on the same messages. A call is allowed when the method is not Browser.close, when the
-- session that the message names, if any, is owned by the client, and when a handler of one of
-- the page domains is given a session, which is not a browser session.
pub handle_message-isolated :
    {S : Type 0} (handle handle' : Handle S) (r : Registry) (s : S) (sent : List (ℕ × Message))
    (c : ℕ) (msg : Message)
    → ((h : Handler) (r' : Registry) (s' : S) (m : Message)
        → IsAllowed r' c h m
        → handle h r' s' (some c) m ≡ handle' h r' s' (some c) m)
    → handle_message handle r s sent (some c) msg ≡ handle_message handle' r s sent (some c) msg
unfolding handle_message
handle_message-isolated handle handle' r s sent c msg agree =
    let r' = state r (some c) in
    authorized-agree handle handle' r' s sent c msg (authorize r' (some c) msg)
      (λ e. agree (dispatch msg.method) r' s msg (authorize-IsAllowed r' c msg e))

-- The response is for the request: its id and session, no method, and either a result or an error.
abbrev pub Answers : Message → Message → Type 0
Answers request response =
    (response.id ≡ request.id)
    × (response.session_id ≡ request.session_id)
    × (response.method ≡ "")
    × (is_some response.result ≡ not (is_some response.error))

send_response-Answers :
    (sent : List (ℕ × Message)) (c : ℕ) (msg : Message) (result : Option String)
    (error : Option Error)
    → (response : Message) × (send_response sent (some c) msg result error
        ≡ sent ++ (c, response) ∷ [])
      × Answers msg response
unfolding send_response
send_response-Answers sent c msg none none = (_, refl, (refl, refl, refl, refl))
send_response-Answers sent c msg (some raw) none = (_, refl, (refl, refl, refl, refl))
send_response-Answers sent c msg result (some e) = (_, refl, (refl, refl, refl, refl))

-- The message has been handled, and one response has been sent for it, to `c`.
abbrev pub AnsweredOnce :
    {S : Type 0}
    → ℕ
    → Message
    → List (ℕ × Message)
    → Option (Registry × S × List (ℕ × Message))
    → Type 0
AnsweredOnce {S} c msg sent out =
    (r : Registry) × (s : S) × (response : Message) × (out
      ≡ some (r, s, sent ++ (c, response) ∷ []))
    × Answers msg response

handle_authorized-Answers :
    {S : Type 0} (handle : Handle S) (refused : Option Error) (r : Registry) (s : S)
    (sent : List (ℕ × Message)) (c : ℕ) (msg : Message)
    → (refused ≡ none → handle (dispatch msg.method) r s (some c) msg ≢ none)
    → AnsweredOnce c msg sent (handle_authorized handle refused r s sent (some c) msg)
unfolding handle_authorized
handle_authorized-Answers handle (some e) r s sent c msg returns =
    let (response, h, a) = send_response-Answers sent c msg none (some e) in
    (r, s, response, rw h refl, a)
handle_authorized-Answers handle none r s sent c msg returns =
    elim (Option-cases (handle (dispatch msg.method) r s (some c) msg)) [
      | inl n ↦ absurd (returns refl n)
      | inr ((r', s', result, error), e) ↦
          let (response, h, a) = send_response-Answers sent c msg result error in
          (r', s', response, rw (e, h) refl, a)
    ]

-- A message of a client is answered exactly once, if its handler does not panic on it or if the call
-- is not one that is allowed to the client: what has been sent grows by one message, to that client,
-- with the request's id and session and either a result or an error, never both and never neither.
pub handle_message-Answers :
    {S : Type 0} (handle : Handle S) (r : Registry) (s : S) (sent : List (ℕ × Message)) (c : ℕ)
    (msg : Message)
    → (IsAllowed (state r (some c)) c (dispatch msg.method) msg
        → handle (dispatch msg.method) (state r (some c)) s (some c) msg ≢ none)
    → AnsweredOnce c msg sent (handle_message handle r s sent (some c) msg)
unfolding handle_message
handle_message-Answers handle r s sent c msg returns =
    let r' = state r (some c) in
    handle_authorized-Answers handle (authorize r' (some c) msg) r' s sent c msg
      (λ e. returns (authorize-IsAllowed r' c msg e))

unowned-refused :
    (r : Registry) (c : ℕ) (msg : Message)
    → msg.session_id ≢ ""
    → session_owned r (some c) msg.session_id ≡ false
    → authorize r (some c) msg ≡ server_error "session not found"
unfolding authorize
unowned-refused r c msg n h = ground arith

authorized-refused :
    {S : Type 0} (handle : Handle S) (refused : Option Error) (e : Error) (r : Registry) (s : S)
    (sent : List (ℕ × Message)) (c : ℕ) (msg : Message)
    → refused ≡ some e
    → handle_authorized handle refused r s sent (some c) msg
      ≡ some (r, s, send_response sent (some c) msg none (some e))
unfolding handle_authorized
authorized-refused handle none e r s sent c msg h = ground arith
authorized-refused handle (some e') e r s sent c msg h = ground arith

-- Once a connection has been closed, then after any further history of calls on the registry a
-- message of it that names a session runs no handler: the bridge's state is as before, and the
-- answer is the error "session not found".
pub closed_connection-refused :
    {S : Type 0} (handle : Handle S) (r : Registry) (ops : List Op) (s : S)
    (sent : List (ℕ × Message)) (c : ℕ) (msg : Message)
    → msg.session_id ≢ ""
    → let r' = run (close_connection r (some c)).0 ops in
      handle_message handle r' s sent (some c) msg
      ≡ some (
        state r' (some c),
        s,
        send_response sent (some c) msg none (server_error "session not found"),
      )
unfolding handle_message
closed_connection-refused handle r ops s sent c msg n =
    let r' = run (close_connection r (some c)).0 ops in
    let g = gone-run c (close_connection r (some c)).0 ops (close_connection-gone c r) in
    let o =
      gone-session_owned c (state r' (some c)) (gone-state c r' g (some c)) msg.session_id n in
    authorized-refused handle _ _ (state r' (some c)) s sent c msg
      (unowned-refused (state r' (some c)) c msg n o)

-- ===== src/Bridge/Dispatch.antt =====
-- pkg/bridge/bridge.go: `HandleMessage` checks a client's message, picks the handler of its domain
-- and answers it. The handlers are a parameter: they read and write a state of type `S` beside the
-- ownership registry, and may panic.
pub mod Isolation
use text.Mathlib.Text.{starts_with}
use foxbridge.Common.{
  ℕ, String, Bool, true, false, not, ◌&&◌, ◌||◌, List, [], ◌∷◌, ◌++◌, Option, none, some,
  string_key, ◌==◌, if◌then◌else◌,
}
use foxbridge.Cdp.Message.{Message, Error, negsuc}
use foxbridge.Bridge.Ownership.{Registry}
use foxbridge.Bridge.Ownership.Connections.{state}
use foxbridge.Bridge.Ownership.Queries.{session_owned, is_browser_session}

-- One constructor for each `handle…` method.
pub data Handler : Type 0 where
  target page runtime input network emulation dom accessibility : Handler
  console fetch performance io css dom_storage stub : Handler

-- The `switch` of `HandleMessage`.
pub dispatch : String → Handler
dispatch method =
    if starts_with method "Target."
    then target
    else if starts_with method "Page."
    then page
    else if starts_with method "Runtime."
    then runtime
    else if starts_with method "Input."
    then input
    else if starts_with method "Network."
    then network
    else if starts_with method "Emulation."
    then emulation
    else if starts_with method "DOM."
    then dom
    else if starts_with method "Accessibility."
    then accessibility
    else if starts_with method "Console."
    then console
    else if starts_with method "Fetch."
    then fetch
    else if starts_with method "Performance."
    then performance
    else if starts_with method "IO."
    then io
    else if starts_with method "CSS."
    then css
    else if starts_with method "DOMStorage."
    then dom_storage
    else stub

abbrev pub scoped_prefixes : List String
scoped_prefixes =
    "Page." ∷ "Runtime." ∷ "Input." ∷ "Network." ∷ "Emulation." ∷ "DOM." ∷ "Accessibility."
    ∷ "Console." ∷ "Fetch." ∷ "Performance." ∷ "IO." ∷ "CSS." ∷ "DOMStorage." ∷ []

abbrev has_prefix_of : List String → String → Bool
has_prefix_of [] method = false
has_prefix_of (prefix ∷ l) method =
    if starts_with method prefix then true else has_prefix_of l method

pub target_scoped_method : String → Bool
target_scoped_method method = has_prefix_of scoped_prefixes method

abbrev pub server_error : String → Option Error
server_error message = some (record { code = negsuc 31999; message = message })

pub authorize : Registry → Option ℕ → Message → Option Error
unfolding target_scoped_method
authorize r none msg = none
authorize r (some conn) msg =
    if not (msg.session_id == "") && not (session_owned r (some conn) msg.session_id)
    then server_error "session not found"
    else if msg.method == "Browser.close"
    then server_error "browser close is disabled in ownership mode"
    else if not (msg.session_id == "")
        && target_scoped_method msg.method
        && is_browser_session r msg.session_id
    then server_error "page session required"
    else if msg.session_id == "" && target_scoped_method msg.method
    then server_error "target session required"
    else none

abbrev or_empty : Option String → Option String
or_empty none = some "{}"
or_empty (some raw) = some raw

-- `sent` is what `conn.Send` has been given, with the connection. There is nothing for a nil one.
pub send_response :
    List (ℕ × Message) → Option ℕ → Message → Option String → Option Error → List (ℕ × Message)
send_response sent none msg result error = sent
send_response sent (some conn) msg result none =
    sent
    ++ (
      conn,
      record {
        id = msg.id;
        method = "";
        params = none;
        result = or_empty result;
        error = none;
        session_id = msg.session_id;
      },
    )
      ∷ []
send_response sent (some conn) msg result (some e) =
    sent
    ++ (
      conn,
      record {
        id = msg.id;
        method = "";
        params = none;
        result = none;
        error = some e;
        session_id = msg.session_id;
      },
    )
      ∷ []

-- The handlers, with the goroutine that runs them: `none` is a handler that panics.
abbrev pub Handle : Type 0 → Type 0
Handle S =
    Handler
    → Registry
    → S
    → Option ℕ
    → Message
    → Option (Registry × S × Option String × Option Error)

module _ {S : Type 0} (handle : Handle S) where
  -- The response is sent once the handler has returned.
  abbrev respond :
      List (ℕ × Message)
      → Option ℕ
      → Message
      → Option (Registry × S × Option String × Option Error)
      → Option (Registry × S × List (ℕ × Message))
  respond sent conn msg none = none
  respond sent conn msg (some (r, s, result, error)) =
      some (r, s, send_response sent conn msg result error)

  -- What happens once the message is authorized, or is not.
  pub handle_authorized :
      Option Error
      → Registry
      → S
      → List (ℕ × Message)
      → Option ℕ
      → Message
      → Option (Registry × S × List (ℕ × Message))
  unfolding dispatch send_response
  handle_authorized (some e) r s sent conn msg =
      some (r, s, send_response sent conn msg none (some e))
  handle_authorized none r s sent conn msg =
      respond sent conn msg (handle (dispatch msg.method) r s conn msg)

  pub handle_message :
      Registry
      → S
      → List (ℕ × Message)
      → Option ℕ
      → Message
      → Option (Registry × S × List (ℕ × Message))
  unfolding handle_authorized authorize
  handle_message r s sent conn msg =
      let r' = state r conn in handle_authorized (authorize r' conn msg) r' s sent conn msg

-- ===== src/Tests/Dispatch.antt =====
-- pkg/bridge/bridge.go at concrete inputs: handlers that write down the calls they get.
use foxbridge.Common.{
  String, ◌==◌, if◌then◌else◌, arith, ◌≡◌, ◌≢◌, refl, List, [], ◌∷◌, none, some, string_key,
  string_discrete, differ,
}
use foxbridge.Cdp.Message.{pos, Message}
use foxbridge.Bridge.Ownership.{new_ownership_registry}
use foxbridge.Bridge.Ownership.Connections.{state}
use foxbridge.Bridge.Ownership.Cleanup.{close_connection}
use foxbridge.Bridge.Ownership.Steps.{run, states}
use foxbridge.Bridge.Dispatch.{Handle, handle_message, server_error, send_response}
use foxbridge.Bridge.Dispatch.Isolation.{
  AnsweredOnce, handle_message-isolated, handle_message-Answers, closed_connection-refused,
}

abbrev request : Message
request = record {
  id = pos 12;
  method = "Page.navigate";
  params = some "{}";
  result = none;
  error = none;
  session_id = "ps";
}

abbrev log_calls : Handle (List String)
log_calls h r s conn msg = some (r, msg.method ∷ s, none, none)

-- They differ on a call that is not allowed, where the second one panics.
abbrev log_closing : Handle (List String)
log_closing h r s conn msg =
    if msg.method == "Browser.close" then none else some (r, msg.method ∷ s, none, none)

handle_message-isolated_example :
    handle_message log_calls new_ownership_registry [] [] (some 7) request
    ≡ handle_message log_closing new_ownership_registry [] [] (some 7) request
handle_message-isolated_example =
    handle_message-isolated log_calls log_closing new_ownership_registry [] [] 7 request
      (λ h r s m a. ground arith)

handle_message-Answers_example :
    AnsweredOnce 7 request []
      (handle_message log_calls new_ownership_registry [] [] (some 7) request)
handle_message-Answers_example =
    handle_message-Answers log_calls new_ownership_registry [] [] 7 request (λ allowed e. cc)

session_named : request.session_id ≢ ""
unfolding string_discrete
session_named = differ {K = String} "ps" "" refl

closed_connection-refused_example :
    let r' = run (close_connection new_ownership_registry (some 7)).0 (states (some 8) ∷ []) in
    handle_message log_calls r' [] [] (some 7) request
    ≡ some (
      state r' (some 7),
      [],
      send_response [] (some 7) request none (server_error "session not found"),
    )
closed_connection-refused_example =
    closed_connection-refused log_calls new_ownership_registry (states (some 8) ∷ []) [] [] 7
      request session_named

-- ===== src/Internal/Examples.antt =====
-- Tests and instances for the message handler. A float64 is a number here, and a text is the method
-- of the message that it encodes.
use mcp_go_sdk.Prelude.{
  ℕ, ◌≡◌, refl, true, false, Option, none, some, List, [], ◌∷◌, String, nat_Key, string_Key, ◌==◌,
  length, arith,
}
use mcp_go_sdk.Prelude.Dict.{lookup, insert}
use mcp_go_sdk.Value.{Value, null, float64, str}
use mcp_go_sdk.Shared.Message.{JsonrpcMessage, Response}
use mcp_go_sdk.Internal.Handler.{
  MessageHandler, PendingRequest, Json, sends, returns, panics, ok, ◌>>=◌, close_of_closed,
  new_message_handler, register_pending, timeout, timer_fires, timer_closes, remove_pending_request,
  update,
}
use mcp_go_sdk.Internal.Handler.Sending.{send_request}
use mcp_go_sdk.Internal.Handler.Receiving.{correlate_response, handle_incoming_message}
use mcp_go_sdk.Internal.Handler.Steps.{
  Call, sends_request, receives, correlates, timer_runs, closes, run,
}
use mcp_go_sdk.Internal.Handler.Invariant.{Inv}
use mcp_go_sdk.Internal.Handler.Safety.{new_message_handler-Inv, register_pending-Inv}
use mcp_go_sdk.Internal.Handler.Schedule.{Sound, Within, run-Sound}
use mcp_go_sdk.Internal.Handler.Correlation.{
  delivered, correlate-timeout, timer_race, send-correlate,
}
use mcp_go_sdk.Internal.Handler.Routing.{received, handle_incoming_message-received}

abbrev Text : Type 0
Text = String

abbrev answer : Value ℕ → Response ℕ
answer id = record { jsonrpc = "2.0"; id = id; result = str "pong"; error = none }

abbrev parse : Text → Option (JsonrpcMessage ℕ)
parse s = elim (s == "reply") [
  | true ↦ some (record {
    jsonrpc = "2.0";
    id = float64 1;
    method = "";
    params = null;
    result = str "pong";
    error = none;
  })
  | false ↦ none
]

abbrev json : Json ℕ Text
json = record {
  marshal_request = λ r. some r.method;
  marshal_notification = λ n. some n.method;
  marshal_response = λ r. some "response";
  unmarshal = parse;
}

abbrev truncate : ℕ → ℕ
truncate x = x

abbrev idle : MessageHandler ℕ Text
idle = new_message_handler (record { request_timeout = 0; buffer_size = 0 })

-- One request, with the id 1, is pending in the cell 0.
abbrev waiting : MessageHandler ℕ Text
waiting = register_pending 1 (record idle { counter = 1 })

abbrev ping : PendingRequest
ping = record { id = 1; cell = 0 }

idle-Inv : Inv idle
idle-Inv = new_message_handler-Inv ℕ Text (record { request_timeout = 0; buffer_size = 0 })

waiting-Inv : Inv waiting
unfolding new_message_handler
waiting-Inv = register_pending-Inv 1 idle idle-Inv (omega arith)

waiting_pending : lookup 1 waiting.pending_requests ≡ some ping
unfolding new_message_handler register_pending lookup insert
waiting_pending = refl

abbrev calls : List (Call ℕ Text)
calls =
    sends_request sends "ping" null
    ∷ receives sends "reply"
    ∷ correlates
    ∷ timer_runs 0
    ∷ closes
    ∷ []

run-Sound_example : Sound (Within (length calls)) (
    run json truncate calls (new_message_handler (record { request_timeout = 0; buffer_size = 0 })))
run-Sound_example =
    run-Sound json truncate (record { request_timeout = 0; buffer_size = 0 }) calls (omega arith)

correlate-timeout_example :
    (timeout 0 waiting >>= correlate_response truncate (answer (float64 1))) ≡ timeout 0 waiting
unfolding new_message_handler register_pending update
correlate-timeout_example =
    correlate-timeout truncate (answer (float64 1)) 0 waiting waiting-Inv (omega arith) refl refl

timer_race_example :
    (correlate_response truncate (answer (float64 1)) (timer_fires 0 waiting) >>= λ g.
    timer_closes 0 (remove_pending_request 1 g))
    ≡ panics close_of_closed
timer_race_example =
    timer_race truncate (answer (float64 1)) 1 ping waiting waiting-Inv refl waiting_pending

send-correlate_example :
    let (g, result) = send_request json sends "ping" null idle in
    (result ≡ ok 0)
    × (g.outgoing_chan ≡ "ping" ∷ [])
    × (correlate_response truncate (answer (float64 1)) g
        ≡ returns (delivered truncate (answer (float64 1)) 1 0 g))
unfolding new_message_handler
send-correlate_example =
    send-correlate truncate json "ping" null (answer (float64 1)) "ping" idle refl (omega arith)
      refl refl

handle_incoming_message-received_example :
    handle_incoming_message json sends "reply" idle ≡ received (parse "reply") idle
handle_incoming_message-received_example = handle_incoming_message-received json "reply" idle

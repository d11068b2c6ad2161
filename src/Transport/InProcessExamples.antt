-- ===== src/Transport/InProcessExamples.antt =====
-- Instances for the in-process transport. A float64 is a number here; the one request that is sent
-- is the text "call" and its response the text "reply".
use mcp_go_sdk.Prelude.{
  ℕ, ◌≡◌, refl, none, some, [], ◌∷◌, String, string_Key, nat_Key, ◌==◌, arith, if◌then◌else◌,
}
use mcp_go_sdk.Prelude.Dict.{lookup, insert}
use mcp_go_sdk.Value.{Fields, null, int64, float64, str, obj, end, field, get}
use mcp_go_sdk.Shared.Message.{JsonrpcMessage}
use mcp_go_sdk.Shared.Types.{Tool, text}
use mcp_go_sdk.Server.{value}
use mcp_go_sdk.Internal.Handler.{Json, sends, returns, ok, new_message_handler}
use mcp_go_sdk.Internal.Handler.Sending.{send_request}
use mcp_go_sdk.Transport.InProcess.{
  InProcessTransport, Wire, Call, result, error, CallFunc, add_tool, handle_request,
  new_in_process_transport, text_at,
}
use mcp_go_sdk.Transport.InProcess.Delivery.{round_trip, with_handler, idle, round_trip-answered}

abbrev reply_message : JsonrpcMessage ℕ
reply_message = record {
  jsonrpc = "2.0";
  id = float64 1;
  method = "";
  params = null;
  result = str "sum";
  error = none;
}

abbrev json : Json ℕ String
json = record {
  marshal_request = λ r. some "call";
  marshal_notification = λ n. none;
  marshal_response = λ r. none;
  unmarshal = λ s. if s == "reply" then some reply_message else none;
}

abbrev params : Fields ℕ
params = field "name" (str "add") (field "arguments" (obj (field "a" (float64 1) end)) end)

abbrev call : Call ℕ
call = record { id = float64 1; method = "tools/call"; params = obj params }

abbrev wire : Wire ℕ String
wire = record {
  unmarshal_call = λ s. if s == "call" then some call else none;
  marshal_reply = λ id reply. elim reply [ result answer ↦ some "reply" | error e ↦ none ];
}

abbrev truncate : ℕ → ℕ
truncate x = x

abbrev add : Tool ℕ
add = record { name = "add"; description = "Adds."; input_schema = end }

abbrev adds : CallFunc ℕ
adds arguments = value (text "sum" "" ∷ [])

abbrev served : InProcessTransport ℕ String
served = add_tool add adds new_in_process_transport

round_trip-answered_example :
    let h = (idle served).message_handler in
    let (g, outcome) = send_request json sends "tools/call" (obj params) h in
    (after : InProcessTransport ℕ String) × (outcome ≡ ok h.fresh)
    × (round_trip json wire truncate (with_handler g (idle served)) ≡ returns after)
    × ((after.message_handler.cells h.fresh).buffer
        ≡ some (record { jsonrpc = "2.0"; id = int64 1; result = str "sum"; error = none }))
unfolding add_tool new_in_process_transport new_message_handler handle_request lookup insert get
    text_at
round_trip-answered_example =
    round_trip-answered json wire truncate "tools/call" (obj params) "call" "reply" call
      reply_message served (omega arith) refl refl refl refl refl refl refl

-- ===== src/Internal/Handler/Steps.antt =====
-- internal/jsonrpc.go: the handler's operations as the atomic steps of one run. `handleResponses`
-- takes the oldest response; a timer that is not armed has no function left to run; a client that
-- reads an empty response channel waits.
use mcp_go_sdk.Prelude.{
  ℕ, Bool, true, false, ◌&&◌, Option, none, List, [], ◌∷◌, String, if◌then◌else◌, ltb,
}
use mcp_go_sdk.Value.{Value}
use mcp_go_sdk.Shared.Message.{Response, RpcError}
use mcp_go_sdk.Internal.Handler.{
  MessageHandler, Timer, armed, Json, Select, Run, returns, ◌>>=◌, timeout, set_cell,
}
use mcp_go_sdk.Internal.Handler.Sending.{send_request, send_notification, send_response}
use mcp_go_sdk.Internal.Handler.Receiving.{handle_incoming_message, correlate_response, close}

pub data Call (F B : Type 0) : Type 0 where
  sends_request : Select → String → Value F → Call F B
  sends_notification : Select → String → Value F → Call F B
  sends_response : Select → Value F → Value F → Option (RpcError F) → Call F B
  receives : Select → B → Call F B
  correlates : Call F B
  timer_runs : ℕ → Call F B
  client_reads : ℕ → Call F B
  closes : Call F B

abbrev pub is_armed : Timer → Bool
is_armed armed = true
is_armed _ = false

module _ {F B : Type 0} (json : Json F B) (to_int64 : F → ℕ) where
  unfoldable pub handle_responses :
      List (Response F) → MessageHandler F B → Run (MessageHandler F B)
  handle_responses [] h = returns h
  handle_responses (r ∷ rs) h = correlate_response to_int64 r (record h { response_chan = rs })

  unfoldable pub step : Call F B → MessageHandler F B → Run (MessageHandler F B)
  step (sends_request sel method params) h = returns (send_request json sel method params h).0
  step (sends_notification sel method params) h =
      returns (send_notification json sel method params h).0
  step (sends_response sel id result error) h = returns (send_response json sel id result error h).0
  step (receives sel bytes) h = returns (handle_incoming_message json sel bytes h)
  step correlates h = handle_responses h.response_chan h
  step (timer_runs a) h =
      if ltb a h.fresh && is_armed (h.cells a).timer then timeout a h else returns h
  step (client_reads a) h = let c = h.cells a in returns (set_cell a (record c { buffer = none }) h)
  step closes h = close h

  unfoldable pub run : List (Call F B) → MessageHandler F B → Run (MessageHandler F B)
  run [] h = returns h
  run (c ∷ cs) h = step c h >>= run cs

-- ===== src/Transport/WebSocketExamples.antt =====
-- Instances for the WebSocket transport: a float64 is a number and a message a text.
use mcp_go_sdk.Prelude.{ℕ, ◌≡◌, refl, ◌+◌, true, false, none, some, List, [], ◌∷◌, String, arith}
use mcp_go_sdk.Internal.Handler.{Json, sends}
use mcp_go_sdk.Transport.WebSocket.{
  WebSocketTransport, WebSocketConfig, created, connect, message, read_error,
}
use mcp_go_sdk.Transport.WebSocket.Steps.{turns, connects, reads, pings}
use mcp_go_sdk.Transport.WebSocket.Connection.{IsLive, turns-IsLive}
use mcp_go_sdk.Transport.WebSocket.Reconnection.{Ready, Cycle, flaps, writers_pile_up}

abbrev json : Json ℕ String
json = record {
  marshal_request = λ r. some "call";
  marshal_notification = λ n. none;
  marshal_response = λ r. none;
  unmarshal = λ s. none;
}

abbrev config : WebSocketConfig
config = record {
  url = "ws://localhost:8080";
  request_timeout = 0;
  message_buffer = 0;
  reconnect_enabled = true;
  max_reconnects = 0;
}

abbrev online : WebSocketTransport ℕ String
online = (connect true (created config)).0

online-Ready : Ready online
unfolding connect
online-Ready = ((refl, refl, ground arith, refl), refl, refl, refl, ground arith)

turns-IsLive_example : IsLive (
    turns json
      (connects true ∷ reads sends (message "hello") ∷ reads sends (read_error true) ∷ [])
      (created config))
turns-IsLive_example =
    turns-IsLive json config
      (connects true ∷ reads sends (message "hello") ∷ reads sends (read_error true) ∷ [])

-- A failed ping in each of the two outages
abbrev outages : List (Cycle ℕ String)
outages =
    record {
      connected_turns = reads sends (message "hello") ∷ pings true ∷ [];
      offline_turns = pings false ∷ [];
    }
    ∷ record { connected_turns = []; offline_turns = pings false ∷ [] }
    ∷ []

writers_pile_up_example :
    let after = turns json (flaps true outages) online in
    (after.connected ≡ true) × (after.readers ≡ 1) × (after.writers ≡ online.writers + 2)
writers_pile_up_example =
    writers_pile_up json true outages online online-Ready
      (((tt, (tt, tt)), (tt, tt)), ((tt, (tt, tt)), tt))

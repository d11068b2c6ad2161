-- ===== src/Transport/WebSocket/Steps.antt =====
-- transport/websocket.go: what happens to a transport between New and Close, as a sequence of turns of
-- its goroutines and of calls.
use mcp_go_sdk.Prelude.{Bool, Option, List, [], ◌∷◌, String}
use mcp_go_sdk.Value.{Value}
use mcp_go_sdk.Shared.Message.{RpcError}
use mcp_go_sdk.Internal.Handler.{Json, Select}
use mcp_go_sdk.Transport.WebSocket.{WebSocketTransport, Reading, connect}
use mcp_go_sdk.Transport.WebSocket.Loops.{
  read_turn, write_turn, ping_turn, reconnect, set_reconnect_enabled, reset_reconnect_count,
  web_socket_send_request, web_socket_send_notification, web_socket_send_response,
}

pub data Turn (F B : Type 0) : Type 0 where
  connects : Bool → Turn F B
  reads : Select → Reading B → Turn F B
  writes pings reconnects enables : Bool → Turn F B
  resets : Turn F B
  requests notifies : Select → String → Value F → Turn F B
  responds : Select → Value F → Value F → Option (RpcError F) → Turn F B

module _ {F B : Type 0} (json : Json F B) where
  unfoldable pub turn : Turn F B → WebSocketTransport F B → WebSocketTransport F B
  turn (connects dialed) t = (connect dialed t).0
  turn (reads put reading) t = read_turn put reading t
  turn (writes accepted) t = write_turn accepted t.message_handler.outgoing_chan t
  turn (pings accepted) t = ping_turn accepted t
  turn (reconnects dialed) t = reconnect dialed t
  turn (enables enabled) t = set_reconnect_enabled enabled t
  turn resets t = reset_reconnect_count t
  turn (requests sel method params) t = (web_socket_send_request json sel method params t).0
  turn (notifies sel method params) t = (web_socket_send_notification json sel method params t).0
  turn (responds sel id result error) t = (web_socket_send_response json sel id result error t).0

  unfoldable pub turns : List (Turn F B) → WebSocketTransport F B → WebSocketTransport F B
  unfolding turn
  turns [] t = t
  turns (first ∷ rest) t = turns rest (turn first t)

-- ===== src/Transport/WebSocket/Connection.antt =====
-- transport/websocket.go: what holds of the connection and its loops until Close.
use mcp_go_sdk.Prelude.{◌≤◌, ◌≡◌, refl, Bool, false, is_some, List, [], ◌∷◌, arith, if◌then◌else◌}
use mcp_go_sdk.Internal.Handler.{Json, Select, new_message_handler}
use mcp_go_sdk.Transport.WebSocket.{WebSocketTransport, WebSocketConfig, Reading, created, connect}
use mcp_go_sdk.Transport.WebSocket.Loops.{
  read_turn, read_message, end_reader, handle_disconnection, write_turn, write_message, ping_turn,
  reconnect, set_reconnect_enabled, reset_reconnect_count, web_socket_send_request,
  web_socket_send_notification, web_socket_send_response,
}
use mcp_go_sdk.Transport.WebSocket.Steps.{
  Turn, turn, turns, connects, reads, writes, pings, reconnects, enables, resets, requests,
  notifies, responds,
}

module _ {F B : Type 0} where
  -- The transport counts as connected when it has a connection; this has one readLoop, and without
  -- it there is none. No more reconnections follow on each other than are allowed.
  abbrev pub IsLive : WebSocketTransport F B → Type 0
  IsLive t =
      (t.connected ≡ is_some t.conn)
      × (t.readers ≡ (if is_some t.conn then 1 else 0))
      × (t.reconnect_count ≤ t.max_reconnects)
      × (t.done ≡ false)

  connect-IsLive :
      (dialed : Bool) (t : WebSocketTransport F B) → IsLive t → IsLive (connect dialed t).0
  unfolding connect
  connect-IsLive dialed t live = ground arith

  read_turn-IsLive :
      (put : Select) (reading : Reading B) (t : WebSocketTransport F B)
      → IsLive t
      → IsLive (read_turn put reading t)
  unfolding read_turn read_message end_reader handle_disconnection
  read_turn-IsLive put reading t live = ground arith

  reconnect-IsLive :
      (dialed : Bool) (t : WebSocketTransport F B) → IsLive t → IsLive (reconnect dialed t)
  unfolding reconnect connect
  reconnect-IsLive dialed t live = ground arith

  write_turn-IsLive :
      (accepted : Bool) (held : List B) (t : WebSocketTransport F B)
      → IsLive t
      → IsLive (write_turn accepted held t)
  unfolding write_turn write_message
  write_turn-IsLive accepted held t live = ground arith

  ping_turn-IsLive :
      (accepted : Bool) (t : WebSocketTransport F B) → IsLive t → IsLive (ping_turn accepted t)
  unfolding ping_turn
  ping_turn-IsLive accepted t live = ground arith

  -- What changes the message handler only, or does not change the connection, keeps the transport
  -- live.
  module _ (json : Json F B) where
    turn-IsLive :
        (next : Turn F B) (t : WebSocketTransport F B) → IsLive t → IsLive (turn json next t)
    unfolding turn set_reconnect_enabled reset_reconnect_count web_socket_send_request
        web_socket_send_notification web_socket_send_response
    turn-IsLive (connects dialed) t live = connect-IsLive dialed t live
    turn-IsLive (reads put reading) t live = read_turn-IsLive put reading t live
    turn-IsLive (writes accepted) t live =
        write_turn-IsLive accepted t.message_handler.outgoing_chan t live
    turn-IsLive (pings accepted) t live = ping_turn-IsLive accepted t live
    turn-IsLive (reconnects dialed) t live = reconnect-IsLive dialed t live
    turn-IsLive (enables enabled) t live = live
    turn-IsLive resets t live = ground arith
    turn-IsLive (requests sel method params) t live = ground arith
    turn-IsLive (notifies sel method params) t live = ground arith
    turn-IsLive (responds sel id result error) t live = ground arith

    turns_from-IsLive :
        (ts : List (Turn F B)) (t : WebSocketTransport F B) → IsLive t → IsLive (turns json ts t)
    unfolding turns
    turns_from-IsLive [] t live = live
    turns_from-IsLive (next ∷ ts) t live =
        turns_from-IsLive ts (turn json next t) (turn-IsLive next t live)

    -- Until Close, whatever the calls and the turns of the goroutines, a new transport is connected
    -- exactly when it has a connection, which one read loop reads, and at most as many
    -- reconnections follow on each other as are allowed.
    pub turns-IsLive :
        (config : WebSocketConfig) (ts : List (Turn F B)) → IsLive (turns json ts (created config))
    unfolding new_message_handler
    turns-IsLive config ts =
        turns_from-IsLive ts (created config) (refl, refl, (ground arith), refl)

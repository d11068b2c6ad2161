-- ===== src/Transport/WebSocket/Loops.antt =====
-- transport/websocket.go: handleDisconnection, the loops by their turns, the sends and Close.
use mcp_go_sdk.Prelude.{
  ℕ, suc, ◌+◌, ◌-◌, Bool, true, false, ◌&&◌, is_some, Option, none, some, List, [], ◌∷◌, ◌++◌,
  String, string_Key, nat_Key, ◌==◌, if◌then◌else◌, ltb,
}
use mcp_go_sdk.Value.{Value}
use mcp_go_sdk.Shared.Message.{RpcError}
use mcp_go_sdk.Internal.Handler.{Json, Select, sends, aborts, Run, returns, ◌>>=◌}
use mcp_go_sdk.Internal.Handler.Sending.{send_request, send_notification, send_response}
use mcp_go_sdk.Internal.Handler.Receiving.{close as close_handler}
use mcp_go_sdk.Transport.WebSocket.{
  count_error, connect, WebSocketTransport, Reading, WebSocketSent, message, read_error,
  not_connected, handled,
}

module _ {F B : Type 0} where
  -- handleDisconnection, up to the goroutine that waits to reconnect
  unfoldable pub handle_disconnection : WebSocketTransport F B → WebSocketTransport F B
  handle_disconnection t =
      if t.reconnect_enabled && ltb t.reconnect_count t.max_reconnects
      then record t {
        connected = false;
        conn = none;
        reconnect_count = t.reconnect_count + 1;
        reconnects = t.reconnects + 1;
        sleeping = suc t.sleeping;
      }
      else record t { connected = false; conn = none }

  -- The end of a readLoop
  unfoldable pub end_reader : WebSocketTransport F B → WebSocketTransport F B
  unfolding handle_disconnection
  end_reader t = handle_disconnection (record t { readers = t.readers - 1 })

  -- What a readLoop does with what ReadMessage returned
  unfoldable pub read_message : Select → Reading B → WebSocketTransport F B → WebSocketTransport F B
  unfolding end_reader
  read_message sends (message m) t = record t {
    messages_received = t.messages_received + 1;
    handler_incoming = t.handler_incoming ++ m ∷ [];
  }
  read_message aborts (message m) t =
      end_reader (record t { messages_received = t.messages_received + 1 })
  read_message put (read_error unexpected) t = end_reader (if unexpected then count_error t else t)

  -- One turn of a readLoop
  unfoldable pub read_turn : Select → Reading B → WebSocketTransport F B → WebSocketTransport F B
  unfolding end_reader read_message
  read_turn put reading t =
      if t.readers == 0
      then t
      else if t.done
      then end_reader t
      else elim t.conn [ none ↦ end_reader t | some a ↦ read_message put reading t ]

  -- writeMessage for a message that a writeLoop has taken; the loop ends with an error.
  unfoldable pub write_message : Bool → B → WebSocketTransport F B → WebSocketTransport F B
  write_message accepted m t =
      let ended : WebSocketTransport F B = record t {
        connection_errors = t.connection_errors + 1;
        writers = t.writers - 1;
      } in
      elim t.conn [
        | none ↦ ended
        | some a ↦
            if accepted
            then record t {
              written = t.written ++ (a, m) ∷ [];
              messages_sent = t.messages_sent + 1;
            }
            else ended
      ]

  unfoldable pub write_turn : Bool → List B → WebSocketTransport F B → WebSocketTransport F B
  unfolding write_message
  write_turn accepted [] t = t
  write_turn accepted (m ∷ rest) t =
      if t.writers == 0
      then t
      else let h = t.message_handler in
        write_message accepted m (record t { message_handler = record h { outgoing_chan = rest } })

  -- The case of a writeLoop or pingLoop whose context is done
  unfoldable pub end_writer : WebSocketTransport F B → WebSocketTransport F B
  end_writer t = if t.done then record t { writers = t.writers - 1 } else t

  unfoldable pub end_pinger : WebSocketTransport F B → WebSocketTransport F B
  end_pinger t = if t.done then record t { pingers = t.pingers - 1 } else t

  -- One turn of a pingLoop: it ends when its ping fails.
  unfoldable pub ping_turn : Bool → WebSocketTransport F B → WebSocketTransport F B
  ping_turn accepted t =
      if is_some t.conn && accepted then t else record t { pingers = t.pingers - 1 }

  -- A goroutine that waited wakes and connects, once.
  unfoldable pub reconnect : Bool → WebSocketTransport F B → WebSocketTransport F B
  unfolding connect
  reconnect dialed t =
      if t.sleeping == 0
      then t
      else let awake : WebSocketTransport F B = record t { sleeping = t.sleeping - 1 } in
        if t.done
        then awake
        else let (tried, succeeded) = connect dialed awake in
          if succeeded then record tried { reconnect_count = 0 } else count_error tried

  unfoldable pub set_reconnect_enabled : Bool → WebSocketTransport F B → WebSocketTransport F B
  set_reconnect_enabled enabled t = record t { reconnect_enabled = enabled }

  unfoldable pub reset_reconnect_count : WebSocketTransport F B → WebSocketTransport F B
  reset_reconnect_count t = record t { reconnect_count = 0 }

  -- Close, up to the loops that still have to end
  unfoldable pub close_web_socket : WebSocketTransport F B → Run (WebSocketTransport F B)
  close_web_socket t =
      if t.closed
      then returns t
      else close_handler t.message_handler >>= λ h. returns (record t {
        message_handler = h;
        conn = none;
        connected = false;
        done = true;
        closed = true;
      })

  module _ (json : Json F B) where
    unfoldable pub web_socket_send_request :
        Select
        → String
        → Value F
        → WebSocketTransport F B
        → WebSocketTransport F B × WebSocketSent ℕ
    web_socket_send_request sel method params t =
        let (h, sent) = send_request json sel method params t.message_handler in
        if t.connected then (record t { message_handler = h }, handled sent) else (t, not_connected)

    unfoldable pub web_socket_send_notification :
        Select
        → String
        → Value F
        → WebSocketTransport F B
        → WebSocketTransport F B × WebSocketSent (Unit {0})
    web_socket_send_notification sel method params t =
        let (h, sent) = send_notification json sel method params t.message_handler in
        if t.connected then (record t { message_handler = h }, handled sent) else (t, not_connected)

    unfoldable pub web_socket_send_response :
        Select
        → Value F
        → Value F
        → Option (RpcError F)
        → WebSocketTransport F B
        → WebSocketTransport F B × WebSocketSent (Unit {0})
    web_socket_send_response sel id result error t =
        let (h, sent) = send_response json sel id result error t.message_handler in
        if t.connected then (record t { message_handler = h }, handled sent) else (t, not_connected)

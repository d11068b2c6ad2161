-- ===== src/Transport/WebSocket.antt =====
-- transport/websocket.go: the connection, its goroutines and the reconnection. A connection is an
-- address; of the package gorilla/websocket the model takes how a call ends, as an argument of the
-- step. `readers`, `writers` and `pingers` count the loops that run, `sleeping` the reconnections
-- that wait. Deadlines, delays and the time of the last connection are left out.
pub mod Loops
pub mod Steps
pub mod Connection
pub mod Reconnection
use mcp_go_sdk.Prelude.{
  ℕ, suc, ◌+◌, ◌-◌, ◌*◌, Bool, true, false, ◌&&◌, ◌||◌, is_some, Option, none, some, List, [], ◌∷◌,
  ◌++◌, String, string_Key, nat_Key, ◌==◌, if◌then◌else◌, ltb,
}
use mcp_go_sdk.Value.{Value}
use mcp_go_sdk.Shared.Message.{Request, Notification, RpcError}
use mcp_go_sdk.Internal.Handler.{
  MessageHandler, Json, Select, sends, aborts, Run, returns, ◌>>=◌, Sent, new_message_handler,
}
use mcp_go_sdk.Internal.Handler.Sending.{send_request, send_notification, send_response}
use mcp_go_sdk.Internal.Handler.Receiving.{close as close_handler}

-- `written` is what was written, each message with its connection.
pub record WebSocketTransport (F B : Type 0) : Type 0 where
  pub message_handler : MessageHandler F B
  pub handler_incoming : List B
  pub request_chan : List (Request F)
  pub notification_chan : List (Notification F)
  pub conn : Option ℕ
  pub next_conn : ℕ
  pub connected : Bool
  pub written : List (ℕ × B)
  pub reconnect_enabled : Bool
  pub max_reconnects : ℕ
  pub reconnect_count : ℕ
  pub readers : ℕ
  pub writers : ℕ
  pub pingers : ℕ
  pub sleeping : ℕ
  pub done : Bool
  pub closed : Bool
  pub messages_sent : ℕ
  pub messages_received : ℕ
  pub reconnects : ℕ
  pub connection_errors : ℕ

pub record WebSocketConfig : Type 0 where
  pub url : String
  pub request_timeout : ℕ
  pub message_buffer : ℕ
  pub reconnect_enabled : Bool
  pub max_reconnects : ℕ

pub data UrlFault : Type 0 where
  url_required invalid_url wrong_scheme : UrlFault

pub data Opened (A : Type 0) : Type 0 where
  opened : A → Opened A
  refused : UrlFault → Opened A

-- How a call of the connection ends. `unexpected` is what IsUnexpectedCloseError says of the error.
pub data Reading (B : Type 0) : Type 0 where
  message : B → Reading B
  read_error : Bool → Reading B

-- A send on a transport that is not connected is refused.
pub data WebSocketSent (A : Type 0) : Type 0 where
  not_connected : WebSocketSent A
  handled : Sent A → WebSocketSent A

module _ {F B : Type 0} where
  abbrev pub created : WebSocketConfig → WebSocketTransport F B
  created config = record {
    message_handler = new_message_handler (record {
      request_timeout =
          if config.request_timeout == 0 then 30 * 1_000_000_000 else config.request_timeout;
      buffer_size = if config.message_buffer == 0 then 100 else config.message_buffer;
    });
    handler_incoming = [];
    request_chan = [];
    notification_chan = [];
    conn = none;
    next_conn = 0;
    connected = false;
    written = [];
    reconnect_enabled = config.reconnect_enabled;
    max_reconnects = if config.max_reconnects == 0 then 10 else config.max_reconnects;
    reconnect_count = 0;
    readers = 0;
    writers = 0;
    pingers = 0;
    sleeping = 0;
    done = false;
    closed = false;
    messages_sent = 0;
    messages_received = 0;
    reconnects = 0;
    connection_errors = 0;
  }

  -- `parse` is url.Parse, of which the scheme is used.
  unfoldable pub new_web_socket_transport :
      (String → Option String) → WebSocketConfig → Opened (WebSocketTransport F B)
  new_web_socket_transport parse config =
      if config.url == "" then refused url_required else elim (parse config.url) [
        | none ↦ refused invalid_url
        | some scheme ↦
            if (scheme == "ws") || (scheme == "wss")
            then opened (created config)
            else refused wrong_scheme
      ]

  abbrev pub count_error : WebSocketTransport F B → WebSocketTransport F B
  count_error t = record t { connection_errors = t.connection_errors + 1 }

  -- A new connection, with its three loops
  abbrev pub attach : WebSocketTransport F B → WebSocketTransport F B
  attach t = record t {
    conn = some t.next_conn;
    next_conn = suc t.next_conn;
    connected = true;
    readers = suc t.readers;
    writers = suc t.writers;
    pingers = suc t.pingers;
  }

  -- Connect, and whether it succeeded; `dialed` says whether the dialer did.
  unfoldable pub connect : Bool → WebSocketTransport F B → WebSocketTransport F B × Bool
  connect dialed t = elim t.conn [
    | some a ↦ (t, false)
    | none ↦ if dialed then (attach t, true) else (count_error t, false)
  ]

-- ===== src/Transport/HttpServer.antt =====
-- transport/streamable_http_server.go: requests over HTTP and events over SSE. handleRPC waits for a
-- response between two parts, `rpc_begin` and `rpc_finish`; what it allocates for a request (the
-- response channel, the timer, the writer) lives at an address. `Http` is encoding/json.
pub mod Exchanges
pub mod Steps
pub mod Offers
pub mod Interleaving
pub mod Stranding
pub mod Answers
pub mod Events
pub mod Broadcast
use mcp_go_sdk.Prelude.{
  ℕ, suc, ◌+◌, ◌*◌, Bool, true, false, ◌&&◌, Option, none, some, List, [], ◌∷◌, ◌++◌, String, Key,
  string_Key, nat_Key, ◌==◌, if◌then◌else◌, map,
}
use mcp_go_sdk.Prelude.Dict.{Dict, lookup, insert, erase}
use mcp_go_sdk.Value.{Value}
use mcp_go_sdk.Value.MapKey.{MapKey, nil_id, MapKey_Key, id_of}
use mcp_go_sdk.Shared.Message.{
  JsonrpcMessage, Request, Notification, Response, RpcError, is_request, is_notification,
  is_response, to_request, to_notification,
}
use mcp_go_sdk.Internal.Handler.{
  MessageHandler, MessageHandlerConfig, new_message_handler, Json, Timer, armed, stopped, fired,
  stop, Select, sends, aborts, Run, returns, panics, send_on_closed, close_of_closed,
  unhashable_key, ◌>>=◌, Sent,
}
use mcp_go_sdk.Internal.Handler.Sending.{send_notification, send_response}

pub record Http (F B : Type 0) : Type 0 where
  pub json : Json F B
  pub marshal_message : JsonrpcMessage F → Option B

-- What an HTTP client gets: a status with a text, the encoded response, or an empty body where the
-- response cannot be encoded.
pub data Written (F : Type 0) : Type 0 where
  status : ℕ → String → Written F
  encoded : Response F → Written F
  unencoded : Written F

-- One POST that waits for its response. `request` is the id that its timer captured.
pub record Exchange (F : Type 0) : Type 0 where
  pub request : MapKey F
  pub response_ch : Option (Response F)
  pub closed : Bool
  pub timer : Timer
  pub written : Option (Written F)

pub record SseEvent (B : Type 0) : Type 0 where
  pub event_type : String
  pub payload : B

-- The events that were written to the client, and whether `Done` is closed.
pub record SseClient (B : Type 0) : Type 0 where
  pub events : List (SseEvent B)
  pub closed : Bool

pub record HttpServerTransport (F B : Type 0) : Type 0 where
  pub message_handler : MessageHandler F B
  pub request_chan : List (Request F)
  pub notification_chan : List (Notification F)
  pub pending_http_requests : Dict (MapKey F) ℕ
  pub exchanges : ℕ → Exchange F
  pub fresh : ℕ
  pub enable_sse : Bool
  pub sse_clients : Dict String ℕ
  pub clients : ℕ → SseClient B
  pub next_client : ℕ
  pub requests_received : ℕ
  pub responses_sent : ℕ
  pub sse_connections : ℕ
  pub http_errors : ℕ

pub record HttpServerConfig : Type 0 where
  pub request_timeout : ℕ
  pub message_buffer : ℕ
  pub enable_sse : Bool

-- How far a POST comes: it is answered at once, or waits at an address.
pub data Posted (F : Type 0) : Type 0 where
  answered : Written F → Posted F
  waiting : ℕ → Posted F

module _ {F B : Type 0} where
  -- The exchange at an address that is not in use is never looked at.
  unfoldable pub new_http_server_transport : HttpServerConfig → HttpServerTransport F B
  new_http_server_transport config =
      let config_of : MessageHandlerConfig = record {
        request_timeout =
            if config.request_timeout == 0 then 30 * 1_000_000_000 else config.request_timeout;
        buffer_size = if config.message_buffer == 0 then 100 else config.message_buffer;
      } in
      record {
        message_handler = new_message_handler config_of;
        request_chan = [];
        notification_chan = [];
        pending_http_requests = [];
        exchanges = λ a. record {
          request = nil_id;
          response_ch = none;
          closed = false;
          timer = stopped;
          written = none;
        };
        fresh = 0;
        enable_sse = config.enable_sse;
        sse_clients = [];
        clients = λ a. record { events = []; closed = false };
        next_client = 0;
        requests_received = 0;
        responses_sent = 0;
        sse_connections = 0;
        http_errors = 0;
      }

  -- bridgeRequests and bridgeNotifications, on what the message handler's channel gives
  unfoldable pub http_bridge_request :
      Select → Option (Request F) → HttpServerTransport F B → HttpServerTransport F B
  http_bridge_request sends (some r) t = record t { request_chan = t.request_chan ++ r ∷ [] }
  http_bridge_request _ _ t = t

  unfoldable pub http_bridge_notification :
      Select → Option (Notification F) → HttpServerTransport F B → HttpServerTransport F B
  http_bridge_notification sends (some n) t = record t {
    notification_chan = t.notification_chan ++ n ∷ [];
  }
  http_bridge_notification _ _ t = t

module _ {F B : Type 0} ⦃key : Key F⦄ where
  abbrev pub set_exchange : ℕ → Exchange F → HttpServerTransport F B → HttpServerTransport F B
  set_exchange a e t = record t { exchanges = λ b. if b == a then e else t.exchanges b }

  -- The pending entry and its timer
  unfoldable pub remove_pending_http_request :
      MapKey F → HttpServerTransport F B → HttpServerTransport F B
  remove_pending_http_request id t = elim (lookup id t.pending_http_requests) [
    | none ↦ t
    | some a ↦
        let e = t.exchanges a in
        record (set_exchange a (record e { timer = stop e.timer }) t) {
          pending_http_requests = erase id t.pending_http_requests;
        }
  ]

  unfoldable pub register_http_request :
      MapKey F → HttpServerTransport F B → HttpServerTransport F B
  register_http_request id t =
      let e : Exchange F = record {
        request = id;
        response_ch = none;
        closed = false;
        timer = armed;
        written = none;
      } in
      record (set_exchange t.fresh e t) {
        fresh = suc t.fresh;
        pending_http_requests = insert id t.fresh t.pending_http_requests;
      }

  unfoldable pub close_exchange : ℕ → HttpServerTransport F B → Run (HttpServerTransport F B)
  close_exchange a t =
      let e = t.exchanges a in
      if e.closed
      then panics close_of_closed
      else returns (set_exchange a (record e { closed = true }) t)

  -- The timer's function.
  unfoldable pub http_timeout : ℕ → HttpServerTransport F B → Run (HttpServerTransport F B)
  unfolding remove_pending_http_request close_exchange
  http_timeout a t =
      let e = t.exchanges a in
      close_exchange a
        (remove_pending_http_request e.request (set_exchange a (record e { timer = fired }) t))

  abbrev pub http_error : HttpServerTransport F B → HttpServerTransport F B
  http_error t = record t { http_errors = t.http_errors + 1 }

  -- A request is registered, then handed over or given up.
  unfoldable pub post_request :
      Select → Request F → HttpServerTransport F B → Run (HttpServerTransport F B × Posted F)
  unfolding register_http_request remove_pending_http_request
  post_request sel r t = elim (id_of r.id) [
    | none ↦ panics unhashable_key
    | some id ↦
        let registered = register_http_request id t in
        elim sel [
          | sends ↦ returns (
            record registered { request_chan = registered.request_chan ++ r ∷ [] },
            waiting t.fresh,
          )
          | aborts ↦ returns (
            remove_pending_http_request id registered,
            answered (status 503 "Server shutting down"),
          )
        ]
  ]

  unfoldable pub post_notification :
      Select → Notification F → HttpServerTransport F B → HttpServerTransport F B × Posted F
  post_notification sends n t =
      (record t { notification_chan = t.notification_chan ++ n ∷ [] }, answered (status 200 ""))
  post_notification aborts n t = (t, answered (status 503 "Server shutting down"))

  unfoldable pub post_message :
      Select → JsonrpcMessage F → HttpServerTransport F B → Run (HttpServerTransport F B × Posted F)
  unfolding post_request post_notification
  post_message sel msg t =
      if is_request msg
      then elim (to_request msg) [
        | none ↦ returns (http_error t, answered (status 400 "Invalid request format"))
        | some r ↦ post_request sel r t
      ]
      else if is_notification msg
      then elim (to_notification msg) [
        | none ↦ returns (http_error t, answered (status 400 "Invalid notification format"))
        | some n ↦ returns (post_notification sel n t)
      ]
      else returns (http_error t, answered (status 400 "Invalid message type"))

  unfoldable pub post_body :
      Http F B
      → Select
      → Option B
      → HttpServerTransport F B
      → Run (HttpServerTransport F B × Posted F)
  unfolding post_message
  post_body http sel none t =
      returns (http_error t, answered (status 400 "Failed to read request body"))
  post_body http sel (some body) t =
      let received = record t { requests_received = t.requests_received + 1 } in
      elim (http.json.unmarshal body) [
        | none ↦ returns (http_error received, answered (status 400 "Invalid JSON-RPC message"))
        | some msg ↦ post_message sel msg received
      ]

  -- handleRPC up to the wait. The body is none if it cannot be read or is too large.
  unfoldable pub rpc_begin :
      Http F B
      → Select
      → String
      → Option B
      → HttpServerTransport F B
      → Run (HttpServerTransport F B × Posted F)
  unfolding post_body
  rpc_begin http sel method body t =
      if method == "OPTIONS"
      then returns (t, answered (status 200 ""))
      else if method == "POST"
      then post_body http sel body t
      else returns (t, answered (status 405 "Method not allowed"))

  -- What handleRPC writes when its channel has a response or is closed; none while it still waits.
  unfoldable pub write_response : Http F B → Exchange F → Option (Written F)
  write_response http e = elim e.response_ch [
    | none ↦ if e.closed then some (status 504 "Request timeout") else none
    | some r ↦ elim (http.json.marshal_response r) [
      | none ↦ some unencoded
      | some bytes ↦ some (encoded r)
    ]
  ]

  unfoldable pub count_written : Written F → HttpServerTransport F B → HttpServerTransport F B
  count_written (encoded r) t = record t { responses_sent = t.responses_sent + 1 }
  count_written unencoded t = http_error t
  count_written (status code text) t = t

  -- The wait of handleRPC, and what follows it
  unfoldable pub rpc_finish : Http F B → ℕ → HttpServerTransport F B → HttpServerTransport F B
  unfolding write_response count_written
  rpc_finish http a t =
      let e = t.exchanges a in
      elim (write_response http e) [
        | none ↦ t
        | some w ↦
            count_written w (set_exchange a (record e { response_ch = none; written = some w }) t)
      ]

  -- `select { case pendingReq.ResponseCh <- response: …; default: }` on a channel of capacity 1
  unfoldable pub offer_http_response :
      MapKey F → ℕ → Response F → HttpServerTransport F B → Run (HttpServerTransport F B)
  unfolding remove_pending_http_request
  offer_http_response id a r t =
      let e = t.exchanges a in
      if e.closed
      then panics send_on_closed
      else returns (elim e.response_ch [
        | some old ↦ t
        | none ↦
            remove_pending_http_request id (set_exchange a (record e { response_ch = some r }) t)
      ])

  unfoldable pub delegate_response :
      Http F B → Select → Response F → HttpServerTransport F B → HttpServerTransport F B
  delegate_response http sel r t = record t {
    message_handler = (send_response http.json sel r.id r.result r.error t.message_handler).0;
  }

  -- SendResponse
  unfoldable pub http_send_response :
      Http F B → Select → Response F → HttpServerTransport F B → Run (HttpServerTransport F B)
  unfolding offer_http_response delegate_response
  http_send_response http sel r t = elim (id_of r.id) [
    | none ↦ panics unhashable_key
    | some id ↦ elim (lookup id t.pending_http_requests) [
      | none ↦ returns (delegate_response http sel r t)
      | some a ↦ offer_http_response id a r t
    ]
  ]

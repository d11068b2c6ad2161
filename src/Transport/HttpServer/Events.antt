-- ===== src/Transport/HttpServer/Events.antt =====
-- transport/streamable_http_server.go: the clients that listen for Server-Sent Events, what is
-- broadcast to them, and Close. A write to a client is taken to succeed, as the code does.
use mcp_go_sdk.Prelude.{
  ℕ, suc, ◌+◌, true, false, Option, none, some, List, [], ◌∷◌, ◌++◌, String, string_Key, nat_Key,
  ◌==◌, if◌then◌else◌,
}
use mcp_go_sdk.Prelude.Dict.{insert, erase}
use mcp_go_sdk.Value.{Value}
use mcp_go_sdk.Shared.Message.{Notification, is_notification, is_response}
use mcp_go_sdk.Internal.Handler.{Select, Sent, Run, returns, panics, close_of_closed, ◌>>=◌}
use mcp_go_sdk.Internal.Handler.Sending.{send_notification}
use mcp_go_sdk.Transport.HttpServer.{HttpServerTransport, Http, SseClient}

module _ {F B : Type 0} where
  abbrev pub set_client : ℕ → SseClient B → HttpServerTransport F B → HttpServerTransport F B
  set_client a c t = record t { clients = λ b. if b == a then c else t.clients b }

  -- The data is none if it cannot be marshalled; then nothing is written.
  unfoldable pub send_sse_event :
      ℕ → String → Option B → HttpServerTransport F B → Option (HttpServerTransport F B)
  send_sse_event a event none t = none
  send_sse_event a event (some payload) t =
      let c = t.clients a in
      some (
        set_client a
          (record c {
            events = c.events ++ (record { event_type = event; payload = payload }) ∷ [];
          })
          t)

  -- The loop of broadcastSSEEvent over the clients that were registered when it began
  unfoldable pub broadcast_to :
      List (String × ℕ) → String → Option B → HttpServerTransport F B → HttpServerTransport F B
  unfolding send_sse_event
  broadcast_to [] event payload t = t
  broadcast_to ((id, a) ∷ rest) event payload t =
      broadcast_to rest event payload (elim (send_sse_event a event payload t) [
        | none ↦ record t { sse_clients = erase id t.sse_clients }
        | some sent ↦ sent
      ])

  unfoldable pub broadcast_sse_event :
      String → Option B → HttpServerTransport F B → HttpServerTransport F B
  unfolding broadcast_to
  broadcast_sse_event event payload t = broadcast_to t.sse_clients event payload t

  -- handleSSE up to its loop, with the marshalled data of the first event
  unfoldable pub sse_begin : String → Option B → HttpServerTransport F B → HttpServerTransport F B
  unfolding send_sse_event
  sse_begin id connected t =
      let a = t.next_client in
      let c : SseClient B = record { events = []; closed = false } in
      let registered = record (set_client a c t) {
        sse_clients = insert id a t.sse_clients;
        next_client = suc a;
        sse_connections = t.sse_connections + 1;
      } in
      elim (send_sse_event a "connected" connected registered) [
        | none ↦ registered
        | some sent ↦ sent
      ]

  unfoldable pub close_client : ℕ → HttpServerTransport F B → Run (HttpServerTransport F B)
  close_client a t =
      let c = t.clients a in
      if c.closed
      then panics close_of_closed
      else returns (set_client a (record c { closed = true }) t)

  -- The deferred function of handleSSE
  unfoldable pub sse_end : String → ℕ → HttpServerTransport F B → Run (HttpServerTransport F B)
  unfolding close_client
  sse_end id a t = close_client a (record t { sse_clients = erase id t.sse_clients })

  -- The loop of Close over the SSE connections
  unfoldable pub close_clients :
      List (String × ℕ) → HttpServerTransport F B → Run (HttpServerTransport F B)
  unfolding close_client
  close_clients [] t = returns t
  close_clients ((id, a) ∷ rest) t = close_client a t >>= λ u. close_clients rest u

  -- SendNotification
  unfoldable pub http_send_notification :
      Http F B
      → Select
      → String
      → Value F
      → HttpServerTransport F B
      → HttpServerTransport F B × Sent (Unit {0})
  unfolding broadcast_sse_event
  http_send_notification http sel method params t =
      let n : Notification F = record { jsonrpc = "2.0"; method = method; params = params } in
      let told =
        if t.enable_sse
        then broadcast_sse_event "notification" (http.json.marshal_notification n) t
        else t in
      let (h, result) = send_notification http.json sel method params told.message_handler in
      (record told { message_handler = h }, result)

  -- bridgeOutgoing, on one message
  unfoldable pub http_bridge_outgoing :
      Http F B → Option B → HttpServerTransport F B → HttpServerTransport F B
  unfolding broadcast_sse_event
  http_bridge_outgoing http none t = t
  http_bridge_outgoing http (some bytes) t =
      if t.enable_sse
      then elim (http.json.unmarshal bytes) [
        | none ↦ t
        | some msg ↦
            if is_notification msg
            then broadcast_sse_event "notification" (http.marshal_message msg) t
            else if is_response msg
            then broadcast_sse_event "response" (http.marshal_message msg) t
            else t
      ]
      else t

-- ===== src/Transport/HttpServer/Broadcast.antt =====
-- transport/streamable_http_server.go over internal/jsonrpc.go: what the SSE clients get of a
-- notification that the server sends.
use mcp_go_sdk.Prelude.{
  ℕ, ◌+◌, ◌≡◌, ◌≢◌, refl, ◌∙◌, ap, true, false, none, some, List, [], ◌∷◌, ◌++◌, String, nat_Key,
  if◌then◌else◌, arith,
}
use mcp_go_sdk.Value.{Value}
use mcp_go_sdk.Shared.Message.{JsonrpcMessage, is_notification, is_response}
use mcp_go_sdk.Internal.Handler.{MessageHandler, sends, Sent, ok, err, context_done}
use mcp_go_sdk.Internal.Handler.Sending.{put_outgoing, send_notification}
use mcp_go_sdk.Transport.HttpServer.{HttpServerTransport, Http, SseClient}
use mcp_go_sdk.Transport.HttpServer.Events.{
  broadcast_to, broadcast_sse_event, http_send_notification, http_bridge_outgoing,
}

abbrev pub Never : ℕ → List (String × ℕ) → Type 0
Never a [] = Unit
Never a ((id, b) ∷ rest) = (a ≢ b) × Never a rest

-- The address stands in the list exactly once.
pub data Once (a : ℕ) : List (String × ℕ) → Type 0 where
  found : {id : String} {rest : List (String × ℕ)} → Never a rest → Once a ((id, a) ∷ rest)
  later :
      {id : String} {b : ℕ} {rest : List (String × ℕ)}
      → a ≢ b
      → Once a rest
      → Once a ((id, b) ∷ rest)

abbrev pub told : {B : Type 0} → String → B → SseClient B → SseClient B
told event payload c = record c {
  events = c.events ++ (record { event_type = event; payload = payload }) ∷ [];
}

module _ {F B : Type 0} where
  broadcast-Never :
      (a : ℕ) (cs : List (String × ℕ)) (event : String) (payload : B) (t : HttpServerTransport F B)
      → Never a cs
      → (broadcast_to cs event (some payload) t).clients a ≡ t.clients a
  unfolding broadcast_to
  broadcast-Never a [] event payload t never = refl
  broadcast-Never a ((id, b) ∷ rest) event payload t (other, never) =
      broadcast-Never a rest event payload _ never ∙ ground (arith, nat_Key.same_iff a b)

  broadcast-Once :
      (a : ℕ) (cs : List (String × ℕ)) (event : String) (payload : B) (t : HttpServerTransport F B)
      → Once a cs
      → (broadcast_to cs event (some payload) t).clients a ≡ told event payload (t.clients a)
  unfolding broadcast_to
  broadcast-Once a [] event payload t once = elim once [ ]
  broadcast-Once a ((id, b) ∷ rest) event payload t (found never) =
      broadcast-Never a rest event payload _ never ∙ ground (arith, nat_Key.same_iff a a)
  broadcast-Once a ((id, b) ∷ rest) event payload t (later other once) =
      broadcast-Once a rest event payload _ once
      ∙ ap (told event payload) (ground (arith, nat_Key.same_iff a b))

  -- What a broadcast leaves alone
  broadcast-rest :
      (cs : List (String × ℕ)) (event : String) (payload : B) (t : HttpServerTransport F B)
      → broadcast_to cs event (some payload) t
        ≡ record t { clients = (broadcast_to cs event (some payload) t).clients }
  unfolding broadcast_to
  broadcast-rest [] event payload t = refl
  broadcast-rest ((id, b) ∷ rest) event payload t = broadcast-rest rest event payload _

  -- The message handler has sent a notification.
  abbrev noted : B → MessageHandler F B → MessageHandler F B
  noted bytes h =
      let c = h.stats in
      record h {
        outgoing_chan = h.outgoing_chan ++ bytes ∷ [];
        stats = record c { notifications_sent = c.notifications_sent + 1 };
      }

  send_notification-noted :
      (http : Http F B) (method : String) (params : Value F) (bytes : B) (h : MessageHandler F B)
      → h.done ≡ false
      → http.json.marshal_notification
          (record { jsonrpc = "2.0"; method = method; params = params })
        ≡ some bytes
      → send_notification http.json sends method params h ≡ (noted bytes h, ok tt)
  unfolding send_notification put_outgoing
  send_notification-noted http method params bytes h running enc =
      let c = h.stats in
      let counted = record c { notifications_sent = c.notifications_sent + 1 } in
      ap
        (λ d.
          if d
          then (h, err context_done)
          else put_outgoing sends
              (http.json.marshal_notification
                (record { jsonrpc = "2.0"; method = method; params = params }))
              counted h)
        running
      ∙ ap (λ o. put_outgoing sends o counted h) enc

  abbrev broadcasted : B → HttpServerTransport F B → HttpServerTransport F B
  broadcasted payload t = record t {
    clients = (broadcast_sse_event "notification" (some payload) t).clients;
  }

  -- Both of them: the clients and the message handler
  abbrev both : B → HttpServerTransport F B → HttpServerTransport F B
  both bytes t = record (broadcasted bytes t) { message_handler = noted bytes t.message_handler }

  http_send_notification-both :
      (http : Http F B) (method : String) (params : Value F) (bytes : B)
      (t : HttpServerTransport F B)
      → t.enable_sse ≡ true
      → t.message_handler.done ≡ false
      → http.json.marshal_notification
          (record { jsonrpc = "2.0"; method = method; params = params })
        ≡ some bytes
      → http_send_notification http sends method params t ≡ (both bytes t, ok tt)
  unfolding http_send_notification broadcast_sse_event
  http_send_notification-both http method params bytes t sse running enc =
      let go : HttpServerTransport F B → HttpServerTransport F B × Sent (Unit {0}) = λ told.
        let (h, result) = send_notification http.json sends method params told.message_handler in
        (record told { message_handler = h }, result) in
      ap
        (λ on. go (
          if on
          then broadcast_sse_event "notification"
              (http.json.marshal_notification
                (record { jsonrpc = "2.0"; method = method; params = params }))
              t
          else t))
        sse
      ∙ ap (λ o. go (broadcast_sse_event "notification" o t)) enc
      ∙ ap go (broadcast-rest t.sse_clients "notification" bytes t)
      ∙ ap (λ p. (record (broadcasted bytes t) { message_handler = p.0 }, p.1))
          (send_notification-noted http method params bytes t.message_handler running enc)

  bridge-broadcasts :
      (http : Http F B) (bytes again : B) (msg : JsonrpcMessage F) (t : HttpServerTransport F B)
      → t.enable_sse ≡ true
      → http.json.unmarshal bytes ≡ some msg
      → is_notification msg ≡ true
      → http.marshal_message msg ≡ some again
      → http_bridge_outgoing http (some bytes) t ≡ broadcast_sse_event "notification" (some again) t
  unfolding http_bridge_outgoing
  bridge-broadcasts http bytes again msg t sse parsed notif enc =
      ap
        (λ on.
          if on
          then elim (http.json.unmarshal bytes) [
            | none ↦ t
            | some m ↦
                if is_notification m
                then broadcast_sse_event "notification" (http.marshal_message m) t
                else if is_response m
                then broadcast_sse_event "response" (http.marshal_message m) t
                else t
          ]
          else t)
        sse
      ∙ rw (parsed, notif, enc) refl

  -- A notification that is sent with SSE on reaches an SSE client twice, where it can be encoded and
  -- read back: SendNotification writes it to the client and hands it to the message handler, and
  -- the bridge writes what it takes from there to the client again.
  pub notification-twice :
      (http : Http F B) (method : String) (params : Value F) (bytes again : B)
      (msg : JsonrpcMessage F) (a : ℕ) (t : HttpServerTransport F B)
      → t.enable_sse ≡ true
      → t.message_handler.done ≡ false
      → http.json.marshal_notification
          (record { jsonrpc = "2.0"; method = method; params = params })
        ≡ some bytes
      → http.json.unmarshal bytes ≡ some msg
      → is_notification msg ≡ true
      → http.marshal_message msg ≡ some again
      → Once a t.sse_clients
      → let (s, result) = http_send_notification http sends method params t in
        (s.message_handler.outgoing_chan ≡ t.message_handler.outgoing_chan ++ bytes ∷ [])
        × (((http_bridge_outgoing http (some bytes) s).clients a).events
            ≡ ((t.clients a).events
                ++ (record { event_type = "notification"; payload = bytes }) ∷ [])
              ++ (record { event_type = "notification"; payload = again }) ∷ [])
  unfolding broadcast_sse_event
  notification-twice http method params bytes again msg a t sse running enc parsed notif enc_again
        once =
      rw
        (
          http_send_notification-both http method params bytes t sse running enc,
          bridge-broadcasts http bytes again msg (both bytes t) sse parsed notif enc_again,
        )
        (
          refl,
          ap (λ c. c.events)
              (broadcast-Once a t.sse_clients "notification" again (both bytes t) once
                ∙ ap (told "notification" again)
                    (broadcast-Once a t.sse_clients "notification" bytes t once)),
        )

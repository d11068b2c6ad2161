-- ===== src/Transport/HttpClient.antt =====
-- transport/streamable_http.go: the client of streamable HTTP. A text is its bytes. What the network does
-- with a request is an argument: `Attempt` for a POST, `Connection` for the SSE stream.
pub mod Stream
pub mod Reconnecting
use mcp_go_sdk.Prelude.{
  ℕ, zero, suc, ◌+◌, ◌*◌, ◌≡◌, Bool, true, false, ◌&&◌, not, Option, none, some, List, [], ◌∷◌,
  ◌++◌, String, nat_Key, string_Key, ◌==◌, if◌then◌else◌, leb,
}
use mcp_go_sdk.Value.{Value, int64}
use mcp_go_sdk.Shared.Text.{Text, Text_Key, codes}
use mcp_go_sdk.Shared.Message.{
  JsonrpcMessage, Request, Notification, Response, is_request, is_notification,
}
use mcp_go_sdk.Internal.Handler.{
  MessageHandler, MessageHandlerConfig, new_message_handler, Json, Select, sends, aborts, Sent, ok,
  err, marshal_failed, next, Run, returns, panics, send_on_closed,
}

pub record Client (F : Type 0) : Type 0 where
  pub json : Json F Text
  pub unmarshal_response : Text → Option (Response F)

-- The channel that SendRequest returns, of capacity 1
pub record ResponseChan (F : Type 0) : Type 0 where
  pub buffer : Option (Response F)
  pub closed : Bool

pub record HttpTransport (F : Type 0) : Type 0 where
  pub message_handler : MessageHandler F Text
  pub request_chan : List (Request F)
  pub notification_chan : List (Notification F)
  pub max_reconnects : ℕ
  pub request_counter : ℕ
  pub answers : ℕ → ResponseChan F
  pub fresh : ℕ
  pub requests_sent : ℕ
  pub responses_received : ℕ
  pub connection_errors : ℕ
  pub http_errors : ℕ
  pub sse_connected : Bool
  pub sse_reconnects : ℕ

-- A POST: http.NewRequest refuses it, the OAuth handler has no header for it, it does not get through, or
-- it is answered by a status and a body, none where the body cannot be read.
pub data Attempt : Type 0 where
  unrequested unauthorized unreachable : Attempt
  answered : ℕ → Option Text → Attempt

pub record HttpConfig : Type 0 where
  pub client_endpoint : Text
  pub request_timeout : ℕ
  pub message_buffer : ℕ
  pub max_reconnects : ℕ

module _ {F : Type 0} where
  unfoldable pub opened_transport : HttpConfig → HttpTransport F
  opened_transport config =
      let config_of : MessageHandlerConfig = record {
        request_timeout =
            if config.request_timeout == 0 then 30 * 1_000_000_000 else config.request_timeout;
        buffer_size = if config.message_buffer == 0 then 100 else config.message_buffer;
      } in
      record {
        message_handler = new_message_handler config_of;
        request_chan = [];
        notification_chan = [];
        max_reconnects = if config.max_reconnects == 0 then 5 else config.max_reconnects;
        request_counter = 0;
        answers = λ a. record { buffer = none; closed = false };
        fresh = 0;
        requests_sent = 0;
        responses_received = 0;
        connection_errors = 0;
        http_errors = 0;
        sse_connected = false;
        sse_reconnects = 0;
      }

  -- NewStreamableHTTPTransportWithConfig; none where no endpoint is given
  unfoldable pub new_http_transport : HttpConfig → Option (HttpTransport F)
  unfolding opened_transport
  new_http_transport config =
      if config.client_endpoint == [] then none else some (opened_transport config)

  abbrev pub count_http_error : HttpTransport F → HttpTransport F
  count_http_error t = record t { http_errors = t.http_errors + 1 }

  abbrev pub count_connection_error : HttpTransport F → HttpTransport F
  count_connection_error t = record t { connection_errors = t.connection_errors + 1 }

  abbrev pub set_response_chan : ℕ → ResponseChan F → HttpTransport F → HttpTransport F
  set_response_chan a c t = record t { answers = λ b. if b == a then c else t.answers b }

  -- SendRequest, with the body of the request and the address of its channel
  unfoldable pub http_send_request :
      Client F → String → Value F → HttpTransport F → HttpTransport F × Sent (ℕ × Text)
  http_send_request client method params t =
      let n = next t.request_counter in
      let counted = record t { request_counter = n } in
      let request : Request F = record {
        jsonrpc = "2.0";
        id = int64 n;
        method = method;
        params = params;
      } in
      elim (client.json.marshal_request request) [
        | none ↦ (counted, err marshal_failed)
        | some body ↦
            let a = t.fresh in
            let c : ResponseChan F = record { buffer = none; closed = false } in
            (
              record (set_response_chan a c counted) {
                fresh = suc a;
                requests_sent = t.requests_sent + 1;
              },
              ok (a, body),
            )
      ]

  -- The goroutine of SendRequest: what it puts into the channel and counts, then `close`
  unfoldable pub receive_answer : Client F → ℕ → Attempt → HttpTransport F → HttpTransport F
  receive_answer client a (answered status (some body)) t = elim (client.unmarshal_response body) [
    | none ↦ count_http_error t
    | some r ↦
        let c = t.answers a in
        set_response_chan a (record c { buffer = some r })
          (record t { responses_received = t.responses_received + 1 })
  ]
  receive_answer client a _ t = count_http_error t

  unfoldable pub complete_request : Client F → ℕ → Attempt → HttpTransport F → HttpTransport F
  unfolding receive_answer
  complete_request client a attempt t =
      let received = receive_answer client a attempt t in
      let c = received.answers a in set_response_chan a (record c { closed = true }) received

  -- What sendHTTPRequest does with an answer to a message that is not a notification
  unfoldable pub receive_body : Client F → ℕ → Option Text → HttpTransport F → HttpTransport F
  receive_body client status none t = count_http_error t
  receive_body client status (some body) t =
      if not (status == 200) then count_http_error t else elim (client.unmarshal_response body) [
        | none ↦ count_http_error t
        | some r ↦ record t { responses_received = t.responses_received + 1 }
      ]

  unfoldable pub send_http_request : Client F → Attempt → Text → HttpTransport F → HttpTransport F
  unfolding receive_body
  send_http_request client attempt message t = elim (client.json.unmarshal message) [
    | none ↦ count_http_error t
    | some msg ↦ elim attempt [
      | unrequested ↦ count_connection_error t
      | unauthorized ↦ count_http_error t
      | unreachable ↦ count_connection_error t
      | answered status body ↦
          let sent = record t { requests_sent = t.requests_sent + 1 } in
          if is_notification msg then sent else receive_body client status body sent
    ]
  ]

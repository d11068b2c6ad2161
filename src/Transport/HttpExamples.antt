-- ===== src/Transport/HttpExamples.antt =====
-- Instances for streamable HTTP. A float64 is a number here; a text is its bytes, "call" the request and
-- "reply" the response of the client's request, "note" a notification.
use mcp_go_sdk.Prelude.{
  ℕ, ◌≡◌, ◌≢◌, refl, true, false, none, some, [], ◌∷◌, string_Key, nat_Key, ◌==◌, if◌then◌else◌,
}
use mcp_go_sdk.Prelude.Dict.{lookup, insert, erase}
use mcp_go_sdk.Value.{Value, null, float64, str}
use mcp_go_sdk.Value.MapKey.{MapKey, MapKey_Key, id_of, float64_id, text_id}
use mcp_go_sdk.Shared.Text.{Text, Text_Key, codes}
use mcp_go_sdk.Shared.Message.{
  JsonrpcMessage, Request, Response, is_request, to_request, is_notification,
}
use mcp_go_sdk.Internal.Handler.{
  Json, sends, Run, returns, panics, ok, stopped, new_message_handler,
}
use mcp_go_sdk.Transport.HttpServer.{
  HttpServerTransport, Http, Posted, waiting, encoded, new_http_server_transport, rpc_begin,
  post_request, post_body, post_message, rpc_finish, http_send_response, http_timeout,
  register_http_request, offer_http_response, remove_pending_http_request,
}
use mcp_go_sdk.Transport.HttpServer.Exchanges.{Keyed}
use mcp_go_sdk.Transport.HttpServer.Interleaving.{posts, Others, still, step}
use mcp_go_sdk.Transport.HttpServer.Answers.{
  rpc-answered, same_id_stranded, both_posted, first_timed_out,
}
use mcp_go_sdk.Transport.HttpServer.Steps.{posted}
use mcp_go_sdk.Transport.HttpServer.Stranding.{
  Laters, done, later, later_post, later_response, later_end,
}
use mcp_go_sdk.Transport.HttpServer.Events.{
  sse_begin, http_send_notification, http_bridge_outgoing, send_sse_event,
}
use mcp_go_sdk.Transport.HttpServer.Broadcast.{notification-twice, found}
use mcp_go_sdk.Transport.HttpClient.{
  HttpTransport, Client, HttpConfig, opened_transport, http_send_request, complete_request,
}
use mcp_go_sdk.Transport.HttpClient.Stream.{Turn, no_answer_sse, stream}
use mcp_go_sdk.Transport.HttpRoundTrip.{http_round_trip, attempted}

abbrev call_message : JsonrpcMessage ℕ
call_message = record {
  jsonrpc = "2.0";
  id = float64 1;
  method = "ping";
  params = null;
  result = null;
  error = none;
}

abbrev note_message : JsonrpcMessage ℕ
note_message = record call_message { id = null; method = "changed" }

abbrev request_from : Value ℕ → Request ℕ
request_from id = record { jsonrpc = "2.0"; id = id; method = "ping"; params = null }

abbrev reply : Response ℕ
reply = record { jsonrpc = "2.0"; id = float64 1; result = str "pong"; error = none }

abbrev json : Json ℕ Text
json = record {
  marshal_request = λ r. some (codes "call");
  marshal_notification = λ n. some (codes "note");
  marshal_response = λ r. some (codes "reply");
  unmarshal = λ s.
      if s == codes "call"
      then some call_message
      else if s == codes "note"
      then some note_message
      else none;
}

abbrev http : Http ℕ Text
http = record { json = json; marshal_message = λ m. some (codes "again") }

abbrev client : Client ℕ
client = record {
  json = json;
  unmarshal_response = λ s. if s == codes "reply" then some reply else none;
}

abbrev at_first : HttpServerTransport ℕ Text
at_first =
    new_http_server_transport
      (record { request_timeout = 0; message_buffer = 0; enable_sse = true })

abbrev state_of : Run (HttpServerTransport ℕ Text × Posted ℕ) → HttpServerTransport ℕ Text
state_of (returns (t, p)) = t
state_of (panics p) = at_first

abbrev server_of : Run (HttpServerTransport ℕ Text) → HttpServerTransport ℕ Text
server_of (returns t) = t
server_of (panics p) = at_first

-- The client's request waits at 0, another with the id "b" at 1.
abbrev first_id : MapKey ℕ
first_id = float64_id 1

abbrev second_id : MapKey ℕ
second_id = text_id "b"

abbrev begun : HttpServerTransport ℕ Text
begun = state_of (rpc_begin http sends "POST" (some (codes "call")) at_first)

abbrev crowded : HttpServerTransport ℕ Text
crowded = state_of (post_request sends (request_from (str "b")) begun)

at_first-Keyed : Keyed at_first
unfolding new_http_server_transport lookup
at_first-Keyed id a h = cc

differ : second_id ≢ first_id
differ e = cc

crowded-Others : Others http first_id begun crowded
unfolding id_of is_request to_request new_http_server_transport rpc_begin post_body post_message
    post_request register_http_request insert
crowded-Others =
    step (posts sends (request_from (str "b")) second_id (waiting 1) refl differ refl) still

rpc-answered_example :
    (v : HttpServerTransport ℕ Text) × (http_send_response http sends reply crowded ≡ returns v)
    × (lookup first_id v.pending_http_requests ≡ none)
    × (((rpc_finish http 0 v).exchanges 0).written ≡ some (encoded reply))
    × ((rpc_finish http 0 v).responses_sent ≡ 1)
unfolding id_of is_request to_request new_http_server_transport rpc_begin post_body post_message
    post_request register_http_request insert
rpc-answered_example =
    rpc-answered http sends (codes "call") (codes "reply") call_message (request_from (float64 1))
      reply first_id at_first begun crowded at_first-Keyed refl refl refl refl refl crowded-Others
      refl refl

abbrev from_b : Request ℕ
from_b = request_from (str "b")

abbrev timed_out_b : HttpServerTransport ℕ Text
timed_out_b = first_timed_out from_b from_b second_id at_first

-- A third POST with the id is answered; the second one is not.
abbrev third : HttpServerTransport ℕ Text
third = state_of (post_request sends from_b timed_out_b)

abbrev reply_b : Response ℕ
reply_b = record reply { id = str "b" }

abbrev third_answered : HttpServerTransport ℕ Text
third_answered = server_of (http_send_response http sends reply_b third)

abbrev third_ended : HttpServerTransport ℕ Text
third_ended = rpc_finish http 2 third_answered

third-Laters : Laters http timed_out_b third_ended
unfolding id_of new_http_server_transport post_request register_http_request insert lookup erase
    http_send_response offer_http_response remove_pending_http_request
third-Laters =
    later (later_post sends from_b second_id (waiting 2) refl refl)
      (later (later_response sends reply_b second_id refl refl) (later (later_end 2) done))

same_id_stranded_example :
    let s = posted sends from_b second_id at_first in
    let u = both_posted from_b from_b second_id at_first in
    (post_request sends from_b at_first ≡ returns (s, waiting 0))
    × (post_request sends from_b s ≡ returns (u, waiting s.fresh))
    × (http_timeout 0 u ≡ returns timed_out_b)
    × (lookup second_id timed_out_b.pending_http_requests ≡ none)
    × ((third_ended.exchanges s.fresh).timer ≡ stopped)
    × ((third_ended.exchanges s.fresh).closed ≡ false)
    × ((third_ended.exchanges s.fresh).response_ch ≡ none)
    × (rpc_finish http s.fresh third_ended ≡ third_ended)
unfolding id_of new_http_server_transport
same_id_stranded_example =
    same_id_stranded http from_b from_b second_id at_first third_ended refl refl at_first-Keyed
      third-Laters

-- One SSE client is registered.
abbrev listening : HttpServerTransport ℕ Text
listening = sse_begin "client-1" none at_first

notification-twice_example :
    let (s, result) = http_send_notification http sends "changed" null listening in
    (s.message_handler.outgoing_chan ≡ codes "note" ∷ [])
    × (((http_bridge_outgoing http (some (codes "note")) s).clients 0).events
        ≡ record { event_type = "notification"; payload = codes "note" }
          ∷ record { event_type = "notification"; payload = codes "again" }
          ∷ [])
unfolding new_http_server_transport new_message_handler sse_begin send_sse_event insert
    is_notification
notification-twice_example =
    notification-twice http "changed" null (codes "note") (codes "again") note_message 0 listening
      refl refl refl refl refl refl (found tt)

abbrev config_of_caller : HttpConfig
config_of_caller = record {
  client_endpoint = codes "u";
  request_timeout = 0;
  message_buffer = 0;
  max_reconnects = 2;
}

abbrev caller : HttpTransport ℕ
caller = opened_transport config_of_caller

http_round_trip_example :
    let (d, sent) = http_send_request client "ping" null caller in
    (v : HttpServerTransport ℕ Text) × (sent ≡ ok (0, codes "call"))
    × (http_send_response http sends reply crowded ≡ returns v)
    × let w = ((rpc_finish http 0 v).exchanges 0).written in
      let e = complete_request client 0 (attempted http w) d in
      ((e.answers 0).buffer ≡ some reply)
      × ((e.answers 0).closed ≡ true)
      × (e.responses_received ≡ 1)
unfolding id_of is_request to_request new_http_server_transport rpc_begin post_body post_message
    post_request register_http_request insert opened_transport
http_round_trip_example =
    http_round_trip client http sends "ping" null (codes "call") (codes "reply") call_message
      (request_from (float64 1)) reply reply first_id caller at_first begun crowded refl
      at_first-Keyed refl refl refl refl refl crowded-Others refl refl refl

-- The server answers twice with a stream that ends, and once not at all.
abbrev streams : Turn
streams = record {
  cancelled = false;
  connection =
      stream 200 ((record { cancelled = false; text = codes "data: note"; select = sends }) ∷ [])
        false;
  cancelled_waiting = false;
}

abbrev fails : Turn
fails = record { cancelled = false; connection = no_answer_sse; cancelled_waiting = false }

-- ===== src/Transport/HttpRoundTrip.antt =====
-- transport/streamable_http.go and transport/streamable_http_server.go: a request from the client to the
-- server and the response back. The two ends may encode with different libraries.
use mcp_go_sdk.Prelude.{
  ℕ, suc, [], ◌+◌, ◌≡◌, refl, ◌∙◌, ap, true, false, Option, none, some, String, Key, nat_Key, arith,
}
use mcp_go_sdk.Value.{Value, int64}
use mcp_go_sdk.Value.MapKey.{MapKey, MapKey_Key, id_of}
use mcp_go_sdk.Shared.Text.{Text, codes}
use mcp_go_sdk.Shared.Message.{JsonrpcMessage, Request, Response, is_request, to_request}
use mcp_go_sdk.Internal.Handler.{Select, sends, returns, ok, next}
use mcp_go_sdk.Transport.HttpServer.{
  HttpServerTransport, Http, Written, encoded, unencoded, status, waiting, rpc_begin, rpc_finish,
  http_send_response,
}
use mcp_go_sdk.Transport.HttpServer.Exchanges.{Keyed}
use mcp_go_sdk.Transport.HttpServer.Interleaving.{Others}
use mcp_go_sdk.Transport.HttpServer.Answers.{rpc-answered}
use mcp_go_sdk.Transport.HttpClient.{
  HttpTransport, Client, ResponseChan, Attempt, answered, http_send_request, complete_request,
  receive_answer, set_response_chan,
}

-- What the client gets of what the server has written: a status and a body
abbrev pub carried : {F : Type 0} → Http F Text → Written F → Attempt
carried http (status code text) = answered code (some (codes text))
carried http (encoded r) = answered 200 (http.json.marshal_response r)
carried http unencoded = answered 200 (some [])

abbrev pub attempted : {F : Type 0} → Http F Text → Option (Written F) → Attempt
attempted http none = answered 200 none
attempted http (some w) = carried http w

module _ {F : Type 0} ⦃key : Key F⦄ (client : Client F) (http : Http F Text) where
  complete-received :
      (a : ℕ) (code : ℕ) (body : Text) (r : Response F) (c : HttpTransport F)
      → client.unmarshal_response body ≡ some r
      → (((complete_request client a (answered code (some body)) c).answers a).buffer ≡ some r)
        × (((complete_request client a (answered code (some body)) c).answers a).closed ≡ true)
        × ((complete_request client a (answered code (some body)) c).responses_received
            ≡ c.responses_received + 1)
  unfolding complete_request receive_answer
  complete-received a code body r c decoded = ground (arith, nat_Key.same_iff a a)

  -- After SendRequest
  abbrev pub dispatched : HttpTransport F → HttpTransport F
  dispatched c =
      let empty : ResponseChan F = record { buffer = none; closed = false } in
      record (set_response_chan c.fresh empty c) {
        request_counter = next c.request_counter;
        fresh = suc c.fresh;
        requests_sent = c.requests_sent + 1;
      }

  send-dispatched :
      (method : String) (params : Value F) (body : Text) (c : HttpTransport F)
      → client.json.marshal_request (record {
        jsonrpc = "2.0";
        id = int64 (next c.request_counter);
        method = method;
        params = params;
      })
        ≡ some body
      → http_send_request client method params c ≡ (dispatched c, ok (c.fresh, body))
  unfolding http_send_request
  send-dispatched method params body c enc = rw (http_send_request, enc) refl

  pub http_round_trip :
      (sel : Select) (method : String) (params : Value F) (body out : Text) (msg : JsonrpcMessage F)
      (req : Request F) (r back : Response F) (id : MapKey F) (c : HttpTransport F)
      (t s u : HttpServerTransport F Text)
      → client.json.marshal_request (record {
        jsonrpc = "2.0";
        id = int64 (next c.request_counter);
        method = method;
        params = params;
      })
        ≡ some body
      → Keyed t
      → http.json.unmarshal body ≡ some msg
      → is_request msg ≡ true
      → to_request msg ≡ some req
      → id_of req.id ≡ some id
      → rpc_begin http sends "POST" (some body) t ≡ returns (s, waiting t.fresh)
      → Others http id s u
      → id_of r.id ≡ some id
      → http.json.marshal_response r ≡ some out
      → client.unmarshal_response out ≡ some back
      → let (d, sent) = http_send_request client method params c in
        (v : HttpServerTransport F Text) × (sent ≡ ok (c.fresh, body))
        × (http_send_response http sel r u ≡ returns v)
        × let w = ((rpc_finish http t.fresh v).exchanges t.fresh).written in
          let e = complete_request client c.fresh (attempted http w) d in
          ((e.answers c.fresh).buffer ≡ some back)
          × ((e.answers c.fresh).closed ≡ true)
          × (e.responses_received ≡ c.responses_received + 1)
  http_round_trip sel method params body out msg req r back id c t s u enc keyed parsed request
        as_request hashed begun others answers enc_out decoded =
      let (v, sent, gone, written, counted) =
        rpc-answered http sel body out msg req r id t s u keyed parsed request as_request hashed
          begun others answers enc_out in
      let carries : attempted http ((rpc_finish http t.fresh v).exchanges t.fresh).written
          ≡ answered 200 (some out) =
        ap (attempted http) written ∙ ap (answered 200) enc_out in
      rw (send-dispatched method params body c enc)
        (v, refl, sent, rw carries (complete-received c.fresh 200 out back (dispatched c) decoded))

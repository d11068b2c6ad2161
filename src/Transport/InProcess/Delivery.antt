-- ===== src/Transport/InProcess/Delivery.antt =====
-- transport/inprocess.go over internal/jsonrpc.go: the way of a request from SendRequest to the
-- server end of the transport and of its response back to the channel of the caller.
use mcp_go_sdk.Prelude.{
  ℕ, ◌+◌, ◌<◌, ◌≡◌, refl, ◌∙◌, ap, false, Option, some, List, [], ◌∷◌, ◌++◌, String, string_Key,
  nat_Key,
}
use mcp_go_sdk.Value.{Value, int64, is_null, int64_mod}
use mcp_go_sdk.Shared.Message.{JsonrpcMessage, Response}
use mcp_go_sdk.Internal.Handler.{
  MessageHandler, Json, sends, Run, returns, ok, ◌>>=◌, register_pending,
}
use mcp_go_sdk.Internal.Handler.Sending.{send_request}
use mcp_go_sdk.Internal.Handler.Receiving.{handle_incoming_message, correlate_response}
use mcp_go_sdk.Internal.Handler.Steps.{handle_responses}
use mcp_go_sdk.Internal.Handler.Routing.{response, kind, filed, handle_incoming_message-received}
use mcp_go_sdk.Internal.Handler.Cells.{update_self}
use mcp_go_sdk.Internal.Handler.Correlation.{
  Names, delivered, sent, send_request-sent, sent_pending, sent_cell, correlate_found,
}
use mcp_go_sdk.Transport.InProcess.{
  InProcessTransport, Wire, Call, handle_request, bridge_message, bridge_outgoing, process_incoming,
  Named, named, refused, tools_call, resources_read, prompts_get, named_params,
}

-- The response as the caller gets it.
abbrev pub response_of : {F : Type 0} → JsonrpcMessage F → Response F
response_of msg = record {
  jsonrpc = msg.jsonrpc;
  id = msg.id;
  result = msg.result;
  error = msg.error;
}

module _ {F B : Type 0} where
  abbrev pub with_handler : MessageHandler F B → InProcessTransport F B → InProcessTransport F B
  with_handler h t = record t { message_handler = h }

  -- The transport with nothing under way.
  abbrev pub idle : InProcessTransport F B → InProcessTransport F B
  idle t =
      let h = t.message_handler in
      record t {
        incoming = [];
        message_handler = record h { done = false; outgoing_chan = []; response_chan = [] };
      }

  -- What is under way does not matter to the server end.
  abbrev pub elsewhere :
      MessageHandler F B → List (Option B) → InProcessTransport F B → InProcessTransport F B
  elsewhere h incoming t = record t { message_handler = h; incoming = incoming }

  tools_call-elsewhere :
      (n : Named F) (h : MessageHandler F B) (incoming : List (Option B))
      (t : InProcessTransport F B)
      → tools_call n (elsewhere h incoming t) ≡ tools_call n t
  unfolding tools_call
  tools_call-elsewhere (named name m) h incoming t = refl
  tools_call-elsewhere (refused e) h incoming t = refl

  resources_read-elsewhere :
      (n : Named F) (h : MessageHandler F B) (incoming : List (Option B))
      (t : InProcessTransport F B)
      → resources_read n (elsewhere h incoming t) ≡ resources_read n t
  unfolding resources_read
  resources_read-elsewhere (named name m) h incoming t = refl
  resources_read-elsewhere (refused e) h incoming t = refl

  prompts_get-elsewhere :
      (n : Named F) (h : MessageHandler F B) (incoming : List (Option B))
      (t : InProcessTransport F B)
      → prompts_get n (elsewhere h incoming t) ≡ prompts_get n t
  unfolding prompts_get
  prompts_get-elsewhere (named name m) h incoming t = refl
  prompts_get-elsewhere (refused e) h incoming t = refl

  handle_request-elsewhere :
      (method : String) (params : Value F) (h : MessageHandler F B) (incoming : List (Option B))
      (t : InProcessTransport F B)
      → handle_request method params (elsewhere h incoming t) ≡ handle_request method params t
  unfolding handle_request
  handle_request-elsewhere method params h incoming t =
      rw
        (
          tools_call-elsewhere (named_params "name" "Missing tool name" params) h incoming t,
          resources_read-elsewhere (named_params "uri" "Missing URI" params) h incoming t,
          prompts_get-elsewhere (named_params "name" "Missing prompt name" params) h incoming t,
        )
        refl

module _ {F B : Type 0} (json : Json F B) (wire : Wire F B) (to_int64 : F → ℕ) where
  -- One request goes all the way: the message handler has sent it, the bridge answers it, the
  -- message handler takes the answer in and correlates it.
  unfoldable pub round_trip : InProcessTransport F B → Run (InProcessTransport F B)
  round_trip t =
      let bridged = bridge_outgoing wire sends t.message_handler.outgoing_chan t in
      let taken = process_incoming json sends bridged.incoming bridged in
      let h = taken.message_handler in
      handle_responses json to_int64 h.response_chan h >>= λ g.
      returns (record taken { message_handler = g })

  bridge-answers :
      (bytes out : B) (call : Call F) (t : InProcessTransport F B)
      → wire.unmarshal_call bytes ≡ some call
      → is_null call.id ≡ false
      → wire.marshal_reply call.id (handle_request call.method call.params t) ≡ some out
      → bridge_message wire sends bytes t ≡ record t { incoming = t.incoming ++ some out ∷ [] }
  unfolding bridge_message
  bridge-answers bytes out call t heard has_id told = rw (bridge_message, heard, has_id, told) refl

  handle_response-files :
      (out : B) (msg : JsonrpcMessage F) (h : MessageHandler F B)
      → json.unmarshal out ≡ some msg
      → kind msg ≡ response
      → handle_incoming_message json sends out h ≡ filed response msg h
  handle_response-files out msg h parsed is_response =
      rw (handle_incoming_message-received json out h, parsed, is_response) refl

  returned :
      (bytes out : B) (call : Call F) (msg : JsonrpcMessage F) (n : ℕ) (t : InProcessTransport F B)
      → wire.unmarshal_call bytes ≡ some call
      → is_null call.id ≡ false
      → wire.marshal_reply call.id (handle_request call.method call.params t) ≡ some out
      → json.unmarshal out ≡ some msg
      → kind msg ≡ response
      → let h = (idle t).message_handler in
        let g = sent to_int64 n bytes h in
        let k = record g { outgoing_chan = [] } in
        round_trip (with_handler g (idle t)) ≡ (
          correlate_response to_int64 (response_of msg) k >>= λ m.
          returns (with_handler m (idle t)))
  unfolding round_trip bridge_outgoing process_incoming handle_responses register_pending
  returned bytes out call msg n t heard has_id told parsed kept =
      let h = (idle t).message_handler in
      let g = sent to_int64 n bytes h in
      let k = record g { outgoing_chan = [] } in
      rw
        (
          bridge-answers bytes out call (with_handler k (idle t)) heard has_id
              (rw (handle_request-elsewhere call.method call.params k [] t) told),
          handle_response-files out msg k parsed kept,
        )
        refl

  -- A request sent on a transport with nothing under way is answered: where the texts can be
  -- encoded and decoded, and the response carries the request's id (as an int64 or the float64 that
  -- stands for it), the caller's channel holds, after one trip through the bridge and back, the
  -- response that the server end of the transport made, under the id of the request.
  pub round_trip-answered :
      (method : String) (params : Value F) (bytes out : B) (call : Call F) (msg : JsonrpcMessage F)
      (t : InProcessTransport F B)
      → t.message_handler.counter + 1 < int64_mod
      → json.marshal_request (record {
        jsonrpc = "2.0";
        id = int64 (t.message_handler.counter + 1);
        method = method;
        params = params;
      })
        ≡ some bytes
      → wire.unmarshal_call bytes ≡ some call
      → is_null call.id ≡ false
      → wire.marshal_reply call.id (handle_request call.method call.params t) ≡ some out
      → json.unmarshal out ≡ some msg
      → kind msg ≡ response
      → Names to_int64 msg.id (t.message_handler.counter + 1)
      → let h = (idle t).message_handler in
        let (g, result) = send_request json sends method params h in
        (after : InProcessTransport F B) × (result ≡ ok h.fresh)
        × (round_trip (with_handler g (idle t)) ≡ returns after)
        × ((after.message_handler.cells h.fresh).buffer
            ≡ some (record {
              jsonrpc = msg.jsonrpc;
              id = int64 (h.counter + 1);
              result = msg.result;
              error = msg.error;
            }))
  round_trip-answered method params bytes out call msg t small enc heard has_id told parsed kept
        names =
      let h = (idle t).message_handler in
      let n = h.counter + 1 in
      let g = sent to_int64 n bytes h in
      let k = record g { outgoing_chan = [] } in
      let a = h.fresh in
      let cell = sent_cell to_int64 n bytes h in
      rw (send_request-sent to_int64 json method params bytes h refl small enc) (
        with_handler (delivered to_int64 (response_of msg) n a k) (idle t),
        refl,
        returned bytes out call msg n t heard has_id told parsed kept
            ∙ ap (λ m. m >>= λ x. returns (with_handler x (idle t)))
                (correlate_found to_int64 (response_of msg) n (record { id = n; cell = a }) k names
                  (sent_pending to_int64 n bytes h) refl (ap (λ c. c.closed) cell)
                  (ap (λ c. c.buffer) cell)),
        ap (λ c. c.buffer) (update_self a _ k.cells),
      )

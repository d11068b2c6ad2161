-- ===== src/Internal/Handler/Routing.antt =====
-- internal/jsonrpc.go: where an incoming message goes.
use mcp_go_sdk.Prelude.{
  ◌+◌, ◌≡◌, Bool, true, false, [], ◌∷◌, ◌++◌, Option, none, some, ◌==◌, string_Key, arith,
  Option-cases, inl, inr,
}
use mcp_go_sdk.Value.{is_null}
use mcp_go_sdk.Shared.Message.{
  JsonrpcMessage, is_request, is_notification, is_response, to_request, to_notification,
  to_response,
}
use mcp_go_sdk.Internal.Handler.{MessageHandler, Json, sends}
use mcp_go_sdk.Internal.Handler.Receiving.{handle_incoming_message, route}

-- The four kinds of message, by whether the method is empty and whether the id is nil.
pub data Kind : Type 0 where
  request notification response neither : Kind

abbrev pub kind_of : Bool → Bool → Kind
kind_of false false = request
kind_of false true = notification
kind_of true false = response
kind_of true true = neither

abbrev pub kind : {F : Type 0} → JsonrpcMessage F → Kind
kind msg = kind_of (msg.method == "") (is_null msg.id)

module _ {F B : Type 0} where
  -- The handler with the message in the queue of its kind.
  abbrev pub filed : Kind → JsonrpcMessage F → MessageHandler F B → MessageHandler F B
  filed request msg h = record h {
    request_chan =
        h.request_chan
        ++ record { jsonrpc = msg.jsonrpc; id = msg.id; method = msg.method; params = msg.params }
          ∷ [];
  }
  filed notification msg h = record h {
    notification_chan =
        h.notification_chan
        ++ record { jsonrpc = msg.jsonrpc; method = msg.method; params = msg.params } ∷ [];
  }
  filed response msg h = record h {
    response_chan =
        h.response_chan
        ++ record { jsonrpc = msg.jsonrpc; id = msg.id; result = msg.result; error = msg.error }
          ∷ [];
  }
  filed neither msg h = h

  -- What becomes of a text, by what it parses to.
  abbrev pub received : Option (JsonrpcMessage F) → MessageHandler F B → MessageHandler F B
  received none h = let s = h.stats in record h { stats = record s { errors = s.errors + 1 } }
  received (some msg) h = filed (kind msg) msg h

  route-filed :
      (msg : JsonrpcMessage F) (h : MessageHandler F B) → route sends msg h ≡ filed (kind msg) msg h
  unfolding route is_request is_notification is_response to_request to_notification to_response
  route-filed msg h = ground arith

  -- A text that parses goes to the one queue of its kind (a method and an id: requests; a method
  -- alone: notifications; an id alone: responses), whole and last in it, and is dropped if it has
  -- neither; a text that does not parse is counted as an error. Nothing else changes.
  pub handle_incoming_message-received :
      (json : Json F B) (bytes : B) (h : MessageHandler F B)
      → handle_incoming_message json sends bytes h ≡ received (json.unmarshal bytes) h
  unfolding handle_incoming_message
  handle_incoming_message-received json bytes h = elim (Option-cases (json.unmarshal bytes)) [
    | inl e ↦ rw (handle_incoming_message, e)
    | inr (msg, e) ↦ rw (handle_incoming_message, e) (route-filed msg h)
  ]

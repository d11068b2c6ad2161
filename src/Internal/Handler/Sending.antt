-- ===== src/Internal/Handler/Sending.antt =====
-- internal/jsonrpc.go: SendRequest, SendNotification, SendResponse.
use mcp_go_sdk.Prelude.{ℕ, ◌+◌, true, Option, none, some, [], ◌∷◌, ◌++◌, String, if◌then◌else◌}
use mcp_go_sdk.Value.{Value, int64}
use mcp_go_sdk.Shared.Message.{Request, RpcError}
use mcp_go_sdk.Internal.Handler.{
  MessageHandler, MessageStats, Json, Sent, ok, err, context_done, marshal_failed, Select, sends,
  aborts, next, register_pending, remove_pending_request,
}

module _ {F B : Type 0} where
  -- The end of SendRequest, from the marshalled request on: the message is sent, or the request
  -- is given up. `a` is the address of the response channel.
  unfoldable pub send_marshalled :
      Select → Option B → ℕ → ℕ → MessageHandler F B → MessageHandler F B × Sent ℕ
  send_marshalled sel none n a h = (remove_pending_request n h, err marshal_failed)
  send_marshalled sends (some msg) n a h =
      let s = h.stats in
      (
        record h {
          outgoing_chan = h.outgoing_chan ++ msg ∷ [];
          stats = record s { requests_sent = s.requests_sent + 1 };
        },
        ok a,
      )
  send_marshalled aborts (some msg) n a h =
      (remove_pending_request n (record h { done = true }), err context_done)

  -- `outgoingChan <- data`, or the context ends; then what a sent message counts
  unfoldable pub put_outgoing :
      Select → Option B → MessageStats → MessageHandler F B → MessageHandler F B × Sent (Unit {0})
  put_outgoing sel none counted h = (h, err marshal_failed)
  put_outgoing sends (some msg) counted h =
      (record h { outgoing_chan = h.outgoing_chan ++ msg ∷ []; stats = counted }, ok tt)
  put_outgoing aborts (some msg) counted h = (record h { done = true }, err context_done)

module _ {F B : Type 0} (json : Json F B) where
  unfoldable pub send_request :
      Select → String → Value F → MessageHandler F B → MessageHandler F B × Sent ℕ
  send_request sel method params h =
      let n = next h.counter in
      let request : Request F = record {
        jsonrpc = "2.0";
        id = int64 n;
        method = method;
        params = params;
      } in
      if h.done
      then (h, err context_done)
      else send_marshalled sel (json.marshal_request request) n h.fresh
          (register_pending n (record h { counter = n }))

  unfoldable pub send_notification :
      Select → String → Value F → MessageHandler F B → MessageHandler F B × Sent (Unit {0})
  send_notification sel method params h =
      let s = h.stats in
      let data_of =
        json.marshal_notification (record { jsonrpc = "2.0"; method = method; params = params }) in
      if h.done
      then (h, err context_done)
      else put_outgoing sel data_of (record s { notifications_sent = s.notifications_sent + 1 }) h

  unfoldable pub send_response :
      Select
      → Value F
      → Value F
      → Option (RpcError F)
      → MessageHandler F B
      → MessageHandler F B × Sent (Unit {0})
  send_response sel id result error h =
      let data_of =
        json.marshal_response
          (record { jsonrpc = "2.0"; id = id; result = result; error = error }) in
      if h.done then (h, err context_done) else put_outgoing sel data_of h.stats h

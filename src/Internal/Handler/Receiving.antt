-- ===== src/Internal/Handler/Receiving.antt =====
-- internal/jsonrpc.go: routing of incoming messages, correlation of responses, Close.
-- `to_int64` is Go's conversion of a float64.
use mcp_go_sdk.Prelude.{
  ℕ, ◌+◌, true, Option, none, some, List, [], ◌∷◌, ◌++◌, if◌then◌else◌, nat_Key,
}
use mcp_go_sdk.Prelude.Dict.{Dict, lookup, erase, values}
use mcp_go_sdk.Value.{Value, int64, float64, is_hashable}
use mcp_go_sdk.Shared.Message.{
  JsonrpcMessage, Request, Notification, Response, is_request, is_notification, is_response,
  to_request, to_notification, to_response,
}
use mcp_go_sdk.Internal.Handler.{
  MessageHandler, PendingRequest, Json, Select, sends, aborts, Run, returns, panics, send_on_closed,
  unhashable_key, ◌>>=◌, set_cell, release, close_chan,
}

-- The entry that the id of a response names, with the id as the caller knows it.
unfoldable pub find_pending :
    {F : Type 0} → (F → ℕ) → Value F → Dict ℕ PendingRequest → Option (Value F × PendingRequest)
find_pending to_int64 (int64 n) m = elim (lookup n m) [ none ↦ none | some p ↦ some (int64 n, p) ]
find_pending to_int64 (float64 x) m = elim (lookup (to_int64 x) m) [
  | none ↦ none
  | some p ↦ some (int64 (to_int64 x), p)
]
find_pending to_int64 v m = none

module _ {F B : Type 0} where
  unfoldable pub push_request : Select → Request F → MessageHandler F B → MessageHandler F B
  push_request sends r h = record h { request_chan = h.request_chan ++ r ∷ [] }
  push_request aborts r h = record h { done = true }

  unfoldable pub push_notification :
      Select → Notification F → MessageHandler F B → MessageHandler F B
  push_notification sends n h = record h { notification_chan = h.notification_chan ++ n ∷ [] }
  push_notification aborts n h = record h { done = true }

  unfoldable pub push_response : Select → Response F → MessageHandler F B → MessageHandler F B
  push_response sends r h = record h { response_chan = h.response_chan ++ r ∷ [] }
  push_response aborts r h = record h { done = true }

  -- A nil result of To… is not forwarded.
  abbrev pub forward {ℓ} :
      {A : Type ℓ}
      → (A → MessageHandler F B → MessageHandler F B)
      → Option A
      → MessageHandler F B
      → MessageHandler F B
  forward push none h = h
  forward push (some a) h = push a h

  unfoldable pub route : Select → JsonrpcMessage F → MessageHandler F B → MessageHandler F B
  unfolding push_request push_notification push_response
  route sel msg h =
      if is_request msg
      then forward (push_request sel) (to_request msg) h
      else if is_notification msg
      then forward (push_notification sel) (to_notification msg) h
      else if is_response msg
      then forward (push_response sel) (to_response msg) h
      else h

  unfoldable pub handle_incoming_message :
      Json F B → Select → B → MessageHandler F B → MessageHandler F B
  handle_incoming_message json sel bytes h =
      let s = h.stats in
      elim (json.unmarshal bytes) [
        | none ↦ record h { stats = record s { errors = s.errors + 1 } }
        | some msg ↦ route sel msg h
      ]

  -- `select { case pending.Response <- response: …; default: }` on a channel of capacity 1
  unfoldable pub offer_response : ℕ → Response F → MessageHandler F B → Run (MessageHandler F B)
  offer_response a r h =
      let c = h.cells a in
      let s = h.stats in
      if c.closed
      then panics send_on_closed
      else returns (elim c.buffer [
        | some old ↦ h
        | none ↦ record (set_cell a (record c { buffer = some r }) h) {
          stats = record s { responses_received = s.responses_received + 1 };
        }
      ])

  -- What correlateResponse does after it has unlocked.
  unfoldable pub deliver : ℕ → Response F → MessageHandler F B → Run (MessageHandler F B)
  unfolding release offer_response close_chan
  deliver a r h = offer_response a r (release a h) >>= close_chan a

  module _ (to_int64 : F → ℕ) where
    unfoldable pub correlate_response : Response F → MessageHandler F B → Run (MessageHandler F B)
    unfolding find_pending deliver
    correlate_response r h =
        if is_hashable r.id
        then elim (find_pending to_int64 r.id h.pending_requests) [
          | none ↦ returns h
          | some (id, p) ↦
              deliver p.cell (record r { id = id })
                (record h { pending_requests = erase p.id h.pending_requests })
        ]
        else panics unhashable_key

  unfoldable pub close_all : List PendingRequest → MessageHandler F B → Run (MessageHandler F B)
  close_all [] h = returns h
  close_all (p ∷ ps) h = close_chan p.cell (release p.cell h) >>= close_all ps

  unfoldable pub close : MessageHandler F B → Run (MessageHandler F B)
  unfolding close_all
  close h = close_all (values h.pending_requests) (record h { done = true }) >>= λ g.
      returns (record g { pending_requests = [] })

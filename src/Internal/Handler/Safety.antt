-- ===== src/Internal/Handler/Safety.antt =====
-- internal/jsonrpc.go: the invariant under sends, correlated responses, timeouts and Close.
use mcp_go_sdk.Prelude.{
  ℕ, ◌+◌, ◌<◌, ◌≡◌, refl, inl, inr, true, Option, none, some, [], ◌∷◌, nat_Key, Option-cases, subst,
  arith, String, if_elim,
}
use mcp_go_sdk.Prelude.Dict.{Dict, lookup, erase, values, erase_first, lookup_first}
use mcp_go_sdk.Value.{Value, int64, float64, is_hashable, int64_mod}
use mcp_go_sdk.Shared.Message.{Response}
use mcp_go_sdk.Internal.Handler.{
  MessageHandler, MessageHandlerConfig, PendingRequest, armed, Json, Sent, Select, sends, aborts,
  next, register_pending, remove_pending_request, timeout, new_message_handler, update, set_cell,
}
use mcp_go_sdk.Internal.Handler.Sending.{send_request, send_marshalled}
use mcp_go_sdk.Internal.Handler.Receiving.{
  correlate_response, close, close_all, find_pending, deliver,
}
use mcp_go_sdk.Internal.Handler.Cells.{
  update_self, update_ne, deliver_lem, timeout_lem, stop-ne-armed, shut, shut_lem,
}
use mcp_go_sdk.Internal.Handler.Invariant.{
  Correlated, Inv, Keeps, Returns, retire, enrol, bind-Returns,
}

pub new_message_handler-Inv :
    (F B : Type 0) (config : MessageHandlerConfig)
    → Inv (new_message_handler {F = F} {B = B} config)
unfolding new_message_handler lookup
new_message_handler-Inv F B config = record {
  live = λ n p h. cc;
  bounded = λ n p h. cc;
  distinct = tt;
  covered = λ a h. absurd (omega arith);
}

pub find_pending-eq-some :
    {F : Type 0} (to_int64 : F → ℕ) (u : Value F) (m : Dict ℕ PendingRequest)
    (q : Value F × PendingRequest)
    → find_pending to_int64 u m ≡ some q
    → (n : ℕ) × (q.0 ≡ int64 n) × (lookup n m ≡ some q.1)
unfolding find_pending
find_pending-eq-some to_int64 (int64 n) m q e = (n, ground arith, ground arith)
find_pending-eq-some to_int64 (float64 x) m q e = (to_int64 x, ground arith, ground arith)
find_pending-eq-some to_int64 _ m q e = cc

module _ {F B : Type 0} where
  pub register_pending-Inv :
      (n : ℕ) (h : MessageHandler F B)
      → Inv h
      → h.counter < n
      → Inv (register_pending n (record h { counter = n }))
  unfolding register_pending
  register_pending-Inv n h v above =
      enrol v n _ above (λ b. update_ne h.fresh b _ h.cells) (update_self h.fresh _ h.cells)

  pub remove_pending_request-Inv :
      (n : ℕ) (h : MessageHandler F B) → Inv h → Inv (remove_pending_request n h)
  unfolding remove_pending_request
  remove_pending_request-Inv n h v = elim (Option-cases (lookup n h.pending_requests)) [
    | inl e ↦ rw (e, remove_pending_request) v
    | inr (p, e) ↦
        rw (e, remove_pending_request)
          (retire v n p _ e (λ b. update_ne p.cell b _ h.cells)
            (rw update_self (stop-ne-armed (h.cells p.cell).timer)))
  ]

  pub timeout-Returns :
      (a : ℕ) (h : MessageHandler F B)
      → a < h.fresh
      → (h.cells a).timer ≡ armed
      → Inv h
      → Returns (Keeps h.counter) (timeout a h)
  timeout-Returns a h known arm v =
      let held = v.covered a known arm in
      let (own, below, rq, op, tm, bf) = v.live _ _ held in
      rw (timeout_lem a h held op) (
        retire v (h.cells a).request _ _ held (λ b. update_ne a b _ h.cells)
            (rw update_self (λ e. cc)),
        refl,
      )

  pub deliver-Returns :
      (n : ℕ) (p : PendingRequest) (r : Response F) (h : MessageHandler F B)
      → lookup n h.pending_requests ≡ some p
      → Inv h
      → Returns
          (Keeps h.counter)
          (deliver p.cell r (record h { pending_requests = erase p.id h.pending_requests }))
  deliver-Returns n p r h e v =
      let (own, below, rq, op, tm, bf) = v.live n p e in
      rw
        (
          deliver_lem p.cell r (record h { pending_requests = erase p.id h.pending_requests }) op
              bf,
          own,
        )
        (
          retire v n p _ e (λ b. update_ne p.cell b _ h.cells)
              (rw update_self (stop-ne-armed (h.cells p.cell).timer)),
          refl,
        )

  pub correlate_response-Returns :
      (to_int64 : F → ℕ) (r : Response F) (h : MessageHandler F B)
      → is_hashable r.id ≡ true
      → Inv h
      → Returns (Keeps h.counter) (correlate_response to_int64 r h)
  unfolding correlate_response
  correlate_response-Returns to_int64 r h ok v =
      elim (Option-cases (find_pending to_int64 r.id h.pending_requests)) [
        | inl e ↦ rw (correlate_response, ok, e) (v, refl)
        | inr (q, e) ↦
            let (n, _, held) = find_pending-eq-some to_int64 r.id h.pending_requests q e in
            rw (correlate_response, ok, e) (deliver-Returns n q.1 (record r { id = q.0 }) h held v)
      ]

  send_marshalled-Inv :
      (sel : Select) (msg : Option B) (n a : ℕ) (h : MessageHandler F B)
      → Inv h
      → Inv (send_marshalled sel msg n a h).0
  unfolding send_marshalled
  send_marshalled-Inv sel none n a h v = remove_pending_request-Inv n h v
  send_marshalled-Inv sends (some msg) n a h v = v
  send_marshalled-Inv aborts (some msg) n a h v =
      remove_pending_request-Inv n (record h { done = true }) v

  pub send_request-Inv :
      (json : Json F B) (sel : Select) (method : String) (params : Value F) (h : MessageHandler F B)
      → h.counter + 1 < int64_mod
      → Inv h
      → Inv (send_request json sel method params h).0
  unfolding send_request next
  send_request-Inv json sel method params h small v =
      if_elim {A = MessageHandler F B × Sent ℕ} (λ r. Inv r.0) h.done _ _ (λ _. v)
        (λ _.
          send_marshalled-Inv sel _ _ h.fresh _
            (register_pending-Inv (next h.counter) h v (omega arith)))

  close_all-Returns :
      (m : Dict ℕ PendingRequest) (h : MessageHandler F B)
      → Correlated m h.counter h.cells h.fresh
      → Returns
          (λ g. Correlated [] g.counter g.cells g.fresh × (g.counter ≡ h.counter))
          (close_all (values m) h)
  unfolding close_all
  close_all-Returns [] h v = (v, refl)
  close_all-Returns ((k, p) ∷ m) h v =
      let (own, below, rq, op, tm, bf) = v.live k p (lookup_first k p m) in
      let away = erase_first k p m v.distinct.0 in
      rw (shut_lem p.cell h op) (
        close_all-Returns m (set_cell p.cell (shut (h.cells p.cell)) h) (
          subst
            (λ l. Correlated l h.counter (update p.cell (shut (h.cells p.cell)) h.cells) h.fresh)
            away
            (retire v k p _ (lookup_first k p m) (λ b. update_ne p.cell b _ h.cells)
              (rw update_self (stop-ne-armed (h.cells p.cell).timer)))))

  pub close-Returns : (h : MessageHandler F B) → Inv h → Returns (Keeps h.counter) (close h)
  unfolding close
  close-Returns h v =
      bind-Returns _ (Keeps h.counter)
        (close_all (values h.pending_requests) (record h { done = true })) _
        (close_all-Returns h.pending_requests (record h { done = true }) v) (λ g w. w)

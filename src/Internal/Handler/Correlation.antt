-- ===== src/Internal/Handler/Correlation.antt =====
-- internal/jsonrpc.go: which request a response reaches, what a timeout leaves behind, and the two
-- ways to panic.
use mcp_go_sdk.Prelude.{
  ℕ, ◌+◌, ◌<◌, ◌≡◌, refl, sym, ◌∙◌, ap, ◌⊎◌, true, false, none, some, [], ◌∷◌, ◌++◌, arith, String,
  nat_Key, subst, if_elim,
}
use mcp_go_sdk.Prelude.Dict.{Dict, lookup, erase, lookup-insert_self, lookup-erase_self}
use mcp_go_sdk.Value.{Value, int64, float64, is_hashable, int64_mod}
use mcp_go_sdk.Shared.Message.{Response}
use mcp_go_sdk.Internal.Handler.{
  MessageHandler, PendingRequest, armed, returns, panics, Json, Sent, sends, ok, close_of_closed,
  unhashable_key, ◌>>=◌, update, timer_fires, timer_closes, timeout, remove_pending_request, next,
  register_pending,
}
use mcp_go_sdk.Internal.Handler.Sending.{send_request, send_marshalled}
use mcp_go_sdk.Internal.Handler.Receiving.{correlate_response, find_pending}
use mcp_go_sdk.Internal.Handler.Cells.{answered, deliver_lem, timeout_lem, update_self}
use mcp_go_sdk.Internal.Handler.Invariant.{Inv, fresh_cell}

-- The request ids that a response's id can stand for: itself if it is an int64, its conversion if
-- it is a float64, as encoding/json makes of every number.
abbrev pub Names : {F : Type 0} → (F → ℕ) → Value F → ℕ → Type 0
Names to_int64 (int64 m) n = m ≡ n
Names to_int64 (float64 x) n = to_int64 x ≡ n
Names to_int64 _ n = ⊥

pub next_small : (k : ℕ) → k + 1 < int64_mod → next k ≡ k + 1
unfolding next
next_small k small = omega arith

module _ {F : Type 0} (to_int64 : F → ℕ) where
  find_pending_named :
      (u : Value F) (n : ℕ) (m : Dict ℕ PendingRequest) (p : PendingRequest)
      → Names to_int64 u n
      → lookup n m ≡ some p
      → find_pending to_int64 u m ≡ some (int64 n, p)
  unfolding find_pending
  find_pending_named (int64 k) n m p e h = ground arith
  find_pending_named (float64 x) n m p e h = ground arith
  find_pending_named _ n m p e h = absurd e

  find_pending_unnamed :
      (u : Value F) (m : Dict ℕ PendingRequest)
      → ((n : ℕ) → Names to_int64 u n → lookup n m ≡ none)
      → find_pending to_int64 u m ≡ none
  unfolding find_pending
  find_pending_unnamed (int64 k) m free = rw (find_pending, free k refl)
  find_pending_unnamed (float64 x) m free = rw (find_pending, free (to_int64 x) refl)
  find_pending_unnamed _ m free = refl

  hashable_of_Names : (u : Value F) (n : ℕ) → Names to_int64 u n → is_hashable u ≡ true
  hashable_of_Names (int64 k) n e = refl
  hashable_of_Names (float64 x) n e = refl
  hashable_of_Names _ n e = absurd e

  Names-unique : (u : Value F) (n m : ℕ) → Names to_int64 u n → Names to_int64 u m → n ≡ m
  Names-unique (int64 k) n m e f = sym e ∙ f
  Names-unique (float64 x) n m e f = sym e ∙ f
  Names-unique _ n m e f = absurd e

  module _ {B : Type 0} where
    -- The handler behind the delivery of `r` to the request `n` at the address `a`.
    abbrev pub delivered : Response F → ℕ → ℕ → MessageHandler F B → MessageHandler F B
    delivered r n a h =
        let s = h.stats in
        record h {
          pending_requests = erase n h.pending_requests;
          cells = update a (answered (record r { id = int64 n }) (h.cells a)) h.cells;
          stats = record s { responses_received = s.responses_received + 1 };
        }

    pub correlate_found :
        (r : Response F) (n : ℕ) (p : PendingRequest) (h : MessageHandler F B)
        → Names to_int64 r.id n
        → lookup n h.pending_requests ≡ some p
        → p.id ≡ n
        → (h.cells p.cell).closed ≡ false
        → (h.cells p.cell).buffer ≡ none
        → correlate_response to_int64 r h ≡ returns (delivered r n p.cell h)
    unfolding correlate_response
    correlate_found r n p h named held own op bf =
        rw
          (
            correlate_response,
            hashable_of_Names r.id n named,
            find_pending_named r.id n h.pending_requests p named held,
          )
          (deliver_lem p.cell (record r { id = int64 n })
              (record h { pending_requests = erase p.id h.pending_requests }) op bf
            ∙ ap
                (λ k. returns (record (delivered r n p.cell h) {
                  pending_requests = erase k h.pending_requests;
                }))
                own)

    -- A response whose id names a pending request is put into that request's channel under the id
    -- that the request was sent with, the channel is closed, the timer stopped, the context
    -- cancelled and the entry removed; nothing else changes but the count of responses.
    pub correlate-deliver :
        (r : Response F) (n : ℕ) (p : PendingRequest) (h : MessageHandler F B)
        → Inv h
        → Names to_int64 r.id n
        → lookup n h.pending_requests ≡ some p
        → correlate_response to_int64 r h ≡ returns (delivered r n p.cell h)
    correlate-deliver r n p h v named held =
        let (own, below, rq, op, tm, bf) = v.live n p held in
        correlate_found r n p h named held own op bf

    pub correlate_missing :
        (r : Response F) (n : ℕ) (h : MessageHandler F B)
        → Names to_int64 r.id n
        → lookup n h.pending_requests ≡ none
        → correlate_response to_int64 r h ≡ returns h
    unfolding correlate_response
    correlate_missing r n h named gone = rw (
      correlate_response,
      hashable_of_Names r.id n named,
      find_pending_unnamed r.id h.pending_requests (λ m nm.
          subst (λ k. lookup k h.pending_requests ≡ none) (Names-unique r.id n m named nm) gone),
    )

    -- A response that names no pending request is dropped, and one whose id cannot be the key of a
    -- map panics.
    pub correlate_unmatched :
        (r : Response F) (h : MessageHandler F B)
        → ((n : ℕ) → Names to_int64 r.id n → lookup n h.pending_requests ≡ none)
        → ((is_hashable r.id ≡ true) × (correlate_response to_int64 r h ≡ returns h))
          ⊎ ((is_hashable r.id ≡ false) × (correlate_response to_int64 r h ≡ panics unhashable_key))
    unfolding correlate_response
    correlate_unmatched r h free = ground (arith, find_pending_unnamed r.id h.pending_requests free)

    remove_missing :
        (n : ℕ) (h : MessageHandler F B)
        → lookup n h.pending_requests ≡ none
        → remove_pending_request n h ≡ h
    unfolding remove_pending_request
    remove_missing n h gone = rw (remove_pending_request, gone)

    timer_closes_closed :
        (a : ℕ) (h : MessageHandler F B)
        → (h.cells a).closed ≡ true
        → timer_closes a h ≡ panics close_of_closed
    unfolding timer_closes
    timer_closes_closed a h shut = simp (update_self, shut)

    -- A response that arrives when its request's timer has run is dropped: the handler stays as the
    -- timeout left it.
    pub correlate-timeout :
        (r : Response F) (a : ℕ) (h : MessageHandler F B)
        → Inv h
        → a < h.fresh
        → (h.cells a).timer ≡ armed
        → Names to_int64 r.id (h.cells a).request
        → (timeout a h >>= correlate_response to_int64 r) ≡ timeout a h
    correlate-timeout r a h v known arm named =
        let held = v.covered a known arm in
        let (own, below, rq, op, tm, bf) = v.live _ _ held in
        rw (timeout_lem a h held op) (
          correlate_missing r (h.cells a).request _ named
            (lookup-erase_self (h.cells a).request h.pending_requests))

    -- The race of a timer with a response: a timer that has fired, and whose function has not yet
    -- taken the lock when the response comes, closes the channel that the response has closed.
    pub timer_race :
        (r : Response F) (n : ℕ) (p : PendingRequest) (h : MessageHandler F B)
        → Inv h
        → Names to_int64 r.id n
        → lookup n h.pending_requests ≡ some p
        → (correlate_response to_int64 r (timer_fires p.cell h) >>= λ g.
            timer_closes p.cell (remove_pending_request n g))
          ≡ panics close_of_closed
    unfolding timer_fires
    timer_race r n p h v named held =
        let (own, below, rq, op, tm, bf) = v.live n p held in
        rw
          (correlate_found r n p (timer_fires p.cell h) named held own (rw update_self op)
            (rw update_self bf))
          (rw
            (remove_missing n (delivered r n p.cell (timer_fires p.cell h))
              (lookup-erase_self n h.pending_requests))
            (timer_closes_closed p.cell (delivered r n p.cell (timer_fires p.cell h))
              (rw update_self refl)))

    -- The handler behind a request that was sent under the id `n`.
    abbrev pub sent : ℕ → B → MessageHandler F B → MessageHandler F B
    sent n bytes h =
        let s = h.stats in
        record (register_pending n (record h { counter = n })) {
          outgoing_chan = h.outgoing_chan ++ bytes ∷ [];
          stats = record s { requests_sent = s.requests_sent + 1 };
        }

    pub send_request-sent :
        (json : Json F B) (method : String) (params : Value F) (bytes : B) (h : MessageHandler F B)
        → h.done ≡ false
        → h.counter + 1 < int64_mod
        → json.marshal_request (record {
          jsonrpc = "2.0";
          id = int64 (h.counter + 1);
          method = method;
          params = params;
        })
          ≡ some bytes
        → send_request json sends method params h ≡ (sent (h.counter + 1) bytes h, ok h.fresh)
    unfolding send_request send_marshalled register_pending
    send_request-sent json method params bytes h live small enc =
        if_elim {A = MessageHandler F B × Sent ℕ}
          (λ r. r ≡ (sent (h.counter + 1) bytes h, ok h.fresh)) h.done _ _ (λ over. cc)
          (λ _. rw (next_small h.counter small, enc))

    pub sent_cell :
        (n : ℕ) (bytes : B) (h : MessageHandler F B) → (sent n bytes h).cells h.fresh ≡ fresh_cell n
    unfolding register_pending
    sent_cell n bytes h = update_self h.fresh _ h.cells

    pub sent_pending :
        (n : ℕ) (bytes : B) (h : MessageHandler F B)
        → lookup n (sent n bytes h).pending_requests ≡ some (record { id = n; cell = h.fresh })
    unfolding register_pending
    sent_pending n bytes h = lookup-insert_self n _ h.pending_requests

    -- A request and its answer. SendRequest on a handler that is not closed, with fewer than
    -- 2 ^ 64 - 1 ids given out, sends the encoded request and returns the address of a channel;
    -- a response with the request's id, as an int64 or as the float64 that stands for it, is then
    -- delivered to that address.
    pub send-correlate :
        (json : Json F B) (method : String) (params : Value F) (r : Response F) (bytes : B)
        (h : MessageHandler F B)
        → h.done ≡ false
        → h.counter + 1 < int64_mod
        → json.marshal_request (record {
          jsonrpc = "2.0";
          id = int64 (h.counter + 1);
          method = method;
          params = params;
        })
          ≡ some bytes
        → Names to_int64 r.id (h.counter + 1)
        → let (g, result) = send_request json sends method params h in
          (result ≡ ok h.fresh)
          × (g.outgoing_chan ≡ h.outgoing_chan ++ bytes ∷ [])
          × (correlate_response to_int64 r g ≡ returns (delivered r (h.counter + 1) h.fresh g))
    send-correlate json method params r bytes h live small enc named =
        rw (send_request-sent json method params bytes h live small enc) (
          refl,
          refl,
          correlate_found r n (record { id = n; cell = h.fresh }) (sent n bytes h) named
              (sent_pending n bytes h) refl (ap (λ c. c.closed) (sent_cell n bytes h))
              (ap (λ c. c.buffer) (sent_cell n bytes h)),
        )
      where
        n : ℕ
        n = h.counter + 1

-- ===== src/Internal/Handler/Schedule.antt =====
-- internal/jsonrpc.go: the invariant under every schedule of whole operations.
use mcp_go_sdk.Prelude.{
  ℕ, ◌+◌, ◌≤◌, ◌<◌, ◌≡◌, refl, false, Option, none, some, List, [], ◌∷◌, inl, inr, ◌⊎◌,
  if◌then◌else◌, Option-cases, Bool-cases, arith, String, length, subst, if_elim, ltb, ltb→lt,
}
use mcp_go_sdk.Value.{Value, is_hashable, int64_mod}
use mcp_go_sdk.Shared.Message.{JsonrpcMessage, Response}
use mcp_go_sdk.Internal.Handler.{
  MessageHandler, MessageHandlerConfig, MessageStats, err, context_done, remove_pending_request,
  Timer, armed, stopped, fired, Run, returns, panics, unhashable_key, close_of_closed,
  send_on_closed, Json, Sent, Select, sends, aborts, ◌>>=◌, new_message_handler, update, next,
  register_pending,
}
use mcp_go_sdk.Internal.Handler.Sending.{
  send_request, send_marshalled, send_notification, send_response, put_outgoing,
}
use mcp_go_sdk.Internal.Handler.Receiving.{
  handle_incoming_message, route, correlate_response, close,
}
use mcp_go_sdk.Internal.Handler.Invariant.{drain, Correlated, Inv, Keeps, Returns}
use mcp_go_sdk.Internal.Handler.Safety.{
  new_message_handler-Inv, timeout-Returns, correlate_response-Returns, send_request-Inv,
  close-Returns,
}
use mcp_go_sdk.Internal.Handler.Steps.{
  Call, sends_request, sends_notification, sends_response, receives, correlates, timer_runs,
  client_reads, closes, is_armed, handle_responses, step, run,
}

-- No channel is closed twice or sent on when closed; a response whose id cannot be a map key is the
-- one way to panic.
abbrev pub Sound : {A : Type 0} → (A → Type 0) → Run A → Type 0
Sound P (returns a) = P a
Sound P (panics unhashable_key) = Unit
Sound P (panics close_of_closed) = ⊥
Sound P (panics send_on_closed) = ⊥

-- The invariant, with at most `k` ids given out.
abbrev pub Within : {F B : Type 0} → ℕ → MessageHandler F B → Type 0
Within k h = Inv h × (h.counter ≤ k)

pub Sound-bind :
    {A B : Type 0} (P : A → Type 0) (Q : B → Type 0) (m : Run A) (f : A → Run B)
    → Sound P m
    → ((a : A) → P a → Sound Q (f a))
    → Sound Q (m >>= f)
Sound-bind P Q (returns a) f h k = k a h
Sound-bind P Q (panics unhashable_key) f h k = tt
Sound-bind P Q (panics close_of_closed) f h k = absurd h
Sound-bind P Q (panics send_on_closed) f h k = absurd h

pub Returns-Sound : {A : Type 0} (P : A → Type 0) (m : Run A) → Returns P m → Sound P m
Returns-Sound P (returns a) h = h
Returns-Sound P (panics p) h = absurd h

Sound-of_Returns :
    {F B : Type 0} (k c : ℕ) (m : Run (MessageHandler F B))
    → Returns (Keeps c) m
    → c ≤ k
    → Sound (Within k) m
Sound-of_Returns k c (returns h) (v, e) le = (v, omega arith)
Sound-of_Returns k c (panics p) h le = absurd h

module _ {F B : Type 0} where
  put_outgoing-Keeps :
      (sel : Select) (msg : Option B) (s : MessageStats) (h : MessageHandler F B)
      → Inv h
      → Keeps h.counter (put_outgoing sel msg s h).0
  unfolding put_outgoing
  put_outgoing-Keeps sel none s h v = (v, refl)
  put_outgoing-Keeps sends (some msg) s h v = (v, refl)
  put_outgoing-Keeps aborts (some msg) s h v = (v, refl)

  sent-Keeps :
      (sel : Select) (msg : Option B) (s : MessageStats) (h : MessageHandler F B)
      → Inv h
      → Keeps h.counter (if h.done then (h, err context_done) else put_outgoing sel msg s h).0
  sent-Keeps sel msg s h v =
      if_elim {A = MessageHandler F B × Sent (Unit {0})} (λ r. Keeps h.counter r.0) h.done _ _
        (λ _. (v, refl)) (λ _. put_outgoing-Keeps sel msg s h v)

  route-Keeps :
      (sel : Select) (msg : JsonrpcMessage F) (h : MessageHandler F B)
      → Inv h
      → Keeps h.counter (route sel msg h)
  unfolding route
  route-Keeps sends msg h v = ground arith
  route-Keeps aborts msg h v = ground arith

  receive-Keeps :
      (json : Json F B) (sel : Select) (bytes : B) (h : MessageHandler F B)
      → Inv h
      → Keeps h.counter (handle_incoming_message json sel bytes h)
  unfolding handle_incoming_message
  receive-Keeps json sel bytes h v = elim (Option-cases (json.unmarshal bytes)) [
    | inl e ↦ rw (handle_incoming_message, e) (v, refl)
    | inr (msg, e) ↦ rw (handle_incoming_message, e) (route-Keeps sel msg h v)
  ]

  send_marshalled-counter :
      (sel : Select) (msg : Option B) (n a : ℕ) (h : MessageHandler F B)
      → (send_marshalled sel msg n a h).0.counter ≡ h.counter
  unfolding send_marshalled remove_pending_request
  send_marshalled-counter sel none n a h = ground arith
  send_marshalled-counter sends (some msg) n a h = refl
  send_marshalled-counter aborts (some msg) n a h = ground arith

  send_request-counter :
      (json : Json F B) (sel : Select) (method : String) (params : Value F) (h : MessageHandler F B)
      → h.counter + 1 < int64_mod
      → (send_request json sel method params h).0.counter ≤ h.counter + 1
  unfolding send_request next register_pending
  send_request-counter json sel method params h small =
      if_elim {A = MessageHandler F B × Sent ℕ} (λ r. r.0.counter ≤ h.counter + 1) h.done _ _
        (λ _. omega arith) (λ _. rw (send_marshalled-counter sel _ _ h.fresh _) (omega arith))

  client_reads-Inv :
      (a : ℕ) (h : MessageHandler F B)
      → Inv h
      → let c = h.cells a in
        Correlated h.pending_requests h.counter
          (update a (record c { buffer = none }) h.cells)
          h.fresh
  unfolding update
  client_reads-Inv a h v =
      drain v _ (λ b. ground arith) (λ b. ground arith) (λ b. ground arith) (λ b e. ground arith)

timer-cases : (t : Timer) → (t ≡ armed) ⊎ (is_armed t ≡ false)
timer-cases armed = inl refl
timer-cases stopped = inr refl
timer-cases fired = inr refl

module _ {F B : Type 0} (json : Json F B) (to_int64 : F → ℕ) where
  handle_responses-Sound :
      (rs : List (Response F)) (k : ℕ) (h : MessageHandler F B)
      → Inv h
      → h.counter ≤ k
      → Sound (Within k) (handle_responses json to_int64 rs h)
  unfolding handle_responses correlate_response
  handle_responses-Sound [] k h v le = (v, le)
  handle_responses-Sound (r ∷ rs) k h v le = elim (Bool-cases (is_hashable r.id)) [
    | inl good ↦
        Sound-of_Returns k h.counter _
          (correlate_response-Returns to_int64 r (record h { response_chan = rs }) good v) le
    | inr bad ↦ rw (correlate_response, bad) tt
  ]

  -- One whole operation: the invariant holds behind it, and at most one more id is out.
  pub step-Sound :
      (c : Call F B) (k : ℕ) (h : MessageHandler F B)
      → Within k h
      → k + 1 < int64_mod
      → Sound (Within (k + 1)) (step json to_int64 c h)
  unfolding step send_notification send_response
  step-Sound (sends_request sel method params) k h (v, le) small = (
    send_request-Inv json sel method params h (omega arith) v,
    omega (arith, send_request-counter json sel method params h (omega arith)),
  )
  step-Sound (sends_notification sel method params) k h (v, le) small =
      let (w, e) = sent-Keeps sel _ _ h v in (w, omega arith)
  step-Sound (sends_response sel id result error) k h (v, le) small =
      let (w, e) = sent-Keeps sel _ _ h v in (w, omega arith)
  step-Sound (receives sel bytes) k h (v, le) small =
      let (w, e) = receive-Keeps json sel bytes h v in (w, omega arith)
  step-Sound correlates k h (v, le) small =
      handle_responses-Sound h.response_chan (k + 1) h v (omega arith)
  step-Sound (timer_runs a) k h (v, le) small = elim (Bool-cases (ltb a h.fresh)) [
    | inl known ↦ elim (timer-cases (h.cells a).timer) [
      | inl arm ↦
          rw (known, arm)
            (Sound-of_Returns (k + 1) h.counter _
              (timeout-Returns a h (ltb→lt a h.fresh known) arm v) (omega arith))
      | inr off ↦ rw (known, off) (v, omega arith)
    ]
    | inr unknown ↦ rw unknown (v, omega arith)
  ]
  step-Sound (client_reads a) k h (v, le) small = (client_reads-Inv a h v, omega arith)
  step-Sound closes k h (v, le) small =
      Sound-of_Returns (k + 1) h.counter (close h) (close-Returns h v) (omega arith)

  run-Within :
      (cs : List (Call F B)) (k : ℕ) (h : MessageHandler F B)
      → Within k h
      → k + length cs < int64_mod
      → Sound (Within (k + length cs)) (run json to_int64 cs h)
  unfolding run
  run-Within [] k h (v, le) small = (v, omega arith)
  run-Within (c ∷ cs) k h w small =
      Sound-bind (Within (k + 1)) (Within (k + length (c ∷ cs))) (step json to_int64 c h) _
        (step-Sound c k h w (omega arith))
        λ g w'.
          subst (λ n. Sound (Within n) (run json to_int64 cs g))
            (let e : (k + 1) + length cs ≡ k + length (c ∷ cs) = omega arith in e)
            (run-Within cs (k + 1) g w' (omega arith))

  -- From a new handler, no schedule of fewer than 2 ^ 64 whole operations (sends, arrivals,
  -- correlations, timers that run, reads, Close) closes a channel twice or sends on a closed one,
  -- whatever the messages are; where it ends without the panic on an unhashable id, every pending
  -- request has an open and empty channel of its own and a running timer.
  pub run-Sound :
      (config : MessageHandlerConfig) (cs : List (Call F B))
      → length cs < int64_mod
      → Sound (Within (length cs)) (run json to_int64 cs (new_message_handler config))
  unfolding new_message_handler
  run-Sound config cs small =
      subst (λ n. Sound (Within n) (run json to_int64 cs (new_message_handler config)))
        (let e : 0 + length cs ≡ length cs = omega arith in e)
        (run-Within cs 0 (new_message_handler config)
          (new_message_handler-Inv F B config, omega arith) (omega arith))

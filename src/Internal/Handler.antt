-- ===== src/Internal/Handler.antt =====
-- internal/jsonrpc.go: the message handler. `Json` stands for encoding/json; a channel that other
-- code drains is the list of what was put into it, and `Select` says which case of a `select` that
-- waits for such a channel or for the context ran.
pub mod Cells
pub mod Sending
pub mod Receiving
pub mod Invariant
pub mod Steps
pub mod Safety
pub mod Schedule
pub mod Correlation
pub mod Routing
use mcp_go_sdk.Prelude.{
  ℕ, suc, ◌+◌, ◌*◌, ◌%◌, ◌≡◌, Bool, true, false, ◌&&◌, Option, none, some, List, [], ◌∷◌, ◌++◌,
  String, nat_Key, ◌==◌, if◌then◌else◌, ltb,
}
use mcp_go_sdk.Prelude.Dict.{Dict, lookup, insert, erase, values}
use mcp_go_sdk.Value.{Value, null, int64, float64, is_hashable, int64_mod}
use mcp_go_sdk.Shared.Message.{
  JsonrpcMessage, Request, Notification, Response, RpcError, is_request, is_notification,
  is_response, to_request, to_notification, to_response,
}

-- A `time.Timer` of `AfterFunc`: `Stop` keeps an armed one from firing.
pub data Timer : Type 0 where
  armed stopped fired : Timer

abbrev pub stop : Timer → Timer
stop armed = stopped
stop stopped = stopped
stop fired = fired

-- What one call of SendRequest allocates: the response channel (of capacity 1), the timer with the
-- id that its function captured, and the context that `cancel` ends.
pub record Cell (F : Type 0) : Type 0 where
  pub request : ℕ
  pub buffer : Option (Response F)
  pub closed : Bool
  pub timer : Timer
  pub cancelled : Bool

-- `cell` is the address of the channel, the timer and the cancel function.
pub record PendingRequest : Type 0 where
  pub id : ℕ
  pub cell : ℕ

pub record MessageStats : Type 0 where
  pub requests_sent : ℕ
  pub responses_received : ℕ
  pub notifications_sent : ℕ
  pub errors : ℕ
  pub timeouts : ℕ

pub record MessageHandlerConfig : Type 0 where
  pub request_timeout : ℕ
  pub buffer_size : ℕ

pub record MessageHandler (F B : Type 0) : Type 0 where
  pub outgoing_chan : List B
  pub request_chan : List (Request F)
  pub notification_chan : List (Notification F)
  pub response_chan : List (Response F)
  pub pending_requests : Dict ℕ PendingRequest
  pub counter : ℕ
  pub done : Bool
  pub request_timeout : ℕ
  pub buffer_size : ℕ
  pub stats : MessageStats
  pub cells : ℕ → Cell F
  pub fresh : ℕ

pub record Json (F B : Type 0) : Type 0 where
  pub marshal_request : Request F → Option B
  pub marshal_notification : Notification F → Option B
  pub marshal_response : Response F → Option B
  pub unmarshal : B → Option (JsonrpcMessage F)

pub data SendError : Type 0 where
  context_done marshal_failed : SendError

pub data Panic : Type 0 where
  close_of_closed send_on_closed unhashable_key : Panic

pub data Run {ℓ} (A : Type ℓ) : Type ℓ where
  returns : A → Run A
  panics : Panic → Run A

infixl 5 ◌>>=◌
abbrev pub ◌>>=◌ {ℓ κ} : {A : Type ℓ} {B : Type κ} → Run A → (A → Run B) → Run B
returns a >>= f = f a
panics p >>= f = panics p

pub data Sent {ℓ} (A : Type ℓ) : Type ℓ where
  ok : A → Sent A
  err : SendError → Sent A

pub data Select : Type 0 where
  sends aborts : Select

abbrev pub no_stats : MessageStats
no_stats = record {
  requests_sent = 0;
  responses_received = 0;
  notifications_sent = 0;
  errors = 0;
  timeouts = 0;
}

abbrev pub free_cell : {F : Type 0} → Cell F
free_cell = record {
  request = 0;
  buffer = none;
  closed = false;
  timer = stopped;
  cancelled = false;
}

unfoldable pub update : {F : Type 0} → ℕ → Cell F → (ℕ → Cell F) → ℕ → Cell F
update a c cells b = if b == a then c else cells b

-- RequestID.Next
unfoldable pub next : ℕ → ℕ
next counter = (counter + 1) % int64_mod

module _ {F B : Type 0} where
  unfoldable pub new_message_handler : MessageHandlerConfig → MessageHandler F B
  new_message_handler config = record {
    outgoing_chan = [];
    request_chan = [];
    notification_chan = [];
    response_chan = [];
    pending_requests = [];
    counter = 0;
    done = false;
    request_timeout =
        if config.request_timeout == 0 then 30 * 1_000_000_000 else config.request_timeout;
    buffer_size = if config.buffer_size == 0 then 100 else config.buffer_size;
    stats = no_stats;
    cells = λ _. free_cell;
    fresh = 0;
  }

  abbrev pub set_cell : ℕ → Cell F → MessageHandler F B → MessageHandler F B
  set_cell a c h = record h { cells = update a c h.cells }

  -- `pending.Timer.Stop(); pending.Cancel()`
  unfoldable pub release : ℕ → MessageHandler F B → MessageHandler F B
  release a h = set_cell a (record c { timer = stop c.timer; cancelled = true }) h
    where
      c : Cell F
      c = h.cells a

  unfoldable pub close_chan : ℕ → MessageHandler F B → Run (MessageHandler F B)
  close_chan a h =
      let c = h.cells a in
      if c.closed
      then panics close_of_closed
      else returns (set_cell a (record c { closed = true }) h)

  unfoldable pub remove_pending_request : ℕ → MessageHandler F B → MessageHandler F B
  unfolding release
  remove_pending_request n h = elim (lookup n h.pending_requests) [
    | none ↦ h
    | some p ↦ release p.cell (record h { pending_requests = erase n h.pending_requests })
  ]

  -- The function of the timer, in the three parts that other goroutines can run between: it has
  -- fired, it takes the lock, it cancels and closes.
  unfoldable pub timer_fires : ℕ → MessageHandler F B → MessageHandler F B
  timer_fires a h =
      let c = h.cells a in
      let s = h.stats in
      record (set_cell a (record c { timer = fired }) h) {
        stats = record s { timeouts = s.timeouts + 1 };
      }

  unfoldable pub timer_closes : ℕ → MessageHandler F B → Run (MessageHandler F B)
  unfolding close_chan
  timer_closes a h = close_chan a (set_cell a (record c { cancelled = true }) h)
    where
      c : Cell F
      c = h.cells a

  unfoldable pub timeout : ℕ → MessageHandler F B → Run (MessageHandler F B)
  unfolding timer_fires timer_closes
  timeout a h = timer_closes a (remove_pending_request (h.cells a).request (timer_fires a h))

  -- The cell, the timer and the entry of a new request.
  unfoldable pub register_pending : ℕ → MessageHandler F B → MessageHandler F B
  register_pending n h =
      let c : Cell F = record {
        request = n;
        buffer = none;
        closed = false;
        timer = armed;
        cancelled = false;
      } in
      record (set_cell h.fresh c h) {
        fresh = suc h.fresh;
        pending_requests = insert n (record { id = n; cell = h.fresh }) h.pending_requests;
      }

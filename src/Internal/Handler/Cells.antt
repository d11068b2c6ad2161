-- ===== src/Internal/Handler/Cells.antt =====
-- internal/jsonrpc.go: what delivering a response and running a timer do to the request's channel.
use mcp_go_sdk.Prelude.{ℕ, ◌+◌, ◌≡◌, ◌≢◌, true, false, none, some, nat_Key, ==_self, arith}
use mcp_go_sdk.Prelude.Dict.{lookup, erase}
use mathlib.Core.Path.{fun_ext}
use mcp_go_sdk.Shared.Message.{Response}
use mcp_go_sdk.Internal.Handler.{
  MessageHandler, Cell, Timer, armed, stopped, fired, stop, returns, update, timeout,
  remove_pending_request, release, close_chan,
}
use mcp_go_sdk.Internal.Handler.Receiving.{deliver}

pub stop-ne-armed : (t : Timer) → stop t ≢ armed
stop-ne-armed armed = λ e. cc
stop-ne-armed stopped = λ e. cc
stop-ne-armed fired = λ e. cc

module _ {F : Type 0} where
  pub update_self : (a : ℕ) (c : Cell F) (m : ℕ → Cell F) → update a c m a ≡ c
  unfolding update
  update_self a c m = rw (==_self a)

  pub update_ne : (a b : ℕ) (c : Cell F) (m : ℕ → Cell F) → b ≢ a → update a c m b ≡ m b
  unfolding update
  update_ne a b c m ne = ground arith

  pub update-update :
      (a : ℕ) (c d : Cell F) (m : ℕ → Cell F) → update a c (update a d m) ≡ update a c m
  unfolding update
  update-update a c d m = fun_ext λ b. ground arith

  -- The cell behind a delivered response.
  abbrev pub answered : Response F → Cell F → Cell F
  answered r c = record c { buffer = some r; closed = true; timer = stop c.timer; cancelled = true }

  -- The cell behind a timer that has run.
  abbrev pub expired : Cell F → Cell F
  expired c = record c { closed = true; timer = fired; cancelled = true }

  -- The cell of a request that was pending at Close.
  abbrev pub shut : Cell F → Cell F
  shut c = record c { closed = true; timer = stop c.timer; cancelled = true }

module _ {F B : Type 0} where
  pub shut_lem :
      (a : ℕ) (h : MessageHandler F B)
      → (h.cells a).closed ≡ false
      → close_chan a (release a h)
        ≡ returns (record h { cells = update a (shut (h.cells a)) h.cells })
  unfolding close_chan release
  shut_lem a h op = simp (update_self, update-update, op)

  -- A response that goes to an open and empty channel is in the channel, which is closed behind it.
  pub deliver_lem :
      (a : ℕ) (r : Response F) (h : MessageHandler F B)
      → (h.cells a).closed ≡ false
      → (h.cells a).buffer ≡ none
      → let s = h.stats in
        deliver a r h
        ≡ returns (record h {
          cells = update a (answered r (h.cells a)) h.cells;
          stats = record s { responses_received = s.responses_received + 1 };
        })
  unfolding deliver
  deliver_lem a r h op bf = simp (update_self, update-update, op, bf)

  -- A timer that runs removes its request, closes the channel and counts a timeout.
  pub timeout_lem :
      (a : ℕ) (h : MessageHandler F B)
      → lookup (h.cells a).request h.pending_requests
        ≡ some (record { id = (h.cells a).request; cell = a })
      → (h.cells a).closed ≡ false
      → let s = h.stats in
        timeout a h
        ≡ returns (record h {
          pending_requests = erase (h.cells a).request h.pending_requests;
          cells = update a (expired (h.cells a)) h.cells;
          stats = record s { timeouts = s.timeouts + 1 };
        })
  unfolding timeout remove_pending_request
  timeout_lem a h held op =
      rw (held, remove_pending_request) (simp (update_self, update-update, op))

-- ===== src/Internal/Progress.antt =====
-- internal/progress_handler.go: the handler of requests with progress, and how it sends. A callback
-- is known by a number; `called` logs the calls of callbacks in order.
pub mod Receiving
pub mod Meta
pub mod Tracking
pub mod Safety
pub mod Arrivals
pub mod Sends
pub mod Schedule
pub mod Outcomes
use mcp_go_sdk.Prelude.{
  ℕ, suc, ◌+◌, Bool, true, false, Option, none, some, List, [], ◌∷◌, ◌++◌, String, nat_Key,
  if◌then◌else◌, ltb, ◌==◌,
}
use mcp_go_sdk.Prelude.Dict.{Dict, lookup, insert, erase}
use mcp_go_sdk.Value.{Value, Fields, null, int64, obj, end, field, get, put}
use mcp_go_sdk.Shared.Message.{Request}
use mcp_go_sdk.Internal.Handler.{
  MessageHandler, MessageHandlerConfig, Timer, armed, stopped, stop, Json, Sent, ok, err,
  context_done, marshal_failed, Select, sends, aborts, next, new_message_handler,
}

pub record ProgressParams (F : Type 0) : Type 0 where
  pub progress_token : Value F
  pub progress : ℕ
  pub total : Option ℕ
  pub message : String

-- `has_context` says whether `Context` is given; durations are not negative.
pub record RequestOptions : Type 0 where
  pub on_progress : Option ℕ
  pub timeout : ℕ
  pub reset_timeout_on_progress : Bool
  pub max_total_timeout : ℕ
  pub has_context : Bool

-- What one call allocates: the response channel, the timers and the context, at an address.
pub record ProgressCell : Type 0 where
  pub request : ℕ
  pub closed : Bool
  pub timer : Timer
  pub total_timer : Option Timer
  pub cancelled : Bool

pub record ProgressPendingRequest : Type 0 where
  pub id : ℕ
  pub cell : ℕ
  pub progress_callback : Option ℕ
  pub progress_token : Option ℕ
  pub reset_timeout_on_progress : Bool
  pub timeout : ℕ

pub record ProgressMessageHandler (F B : Type 0) : Type 0 where
  pub base : MessageHandler F B
  pub progress_requests : Dict ℕ ProgressPendingRequest
  pub progress_tokens : Dict ℕ ℕ
  pub token_counter : ℕ
  pub test_progress_callback : Option ℕ
  pub called : List (ℕ × ProgressParams F)
  pub cells : ℕ → ProgressCell
  pub fresh : ℕ

-- `delete(progressTokens, token)` unless the token is nil
unfoldable pub erase_token : Option ℕ → Dict ℕ ℕ → Dict ℕ ℕ
erase_token none tokens = tokens
erase_token (some token) tokens = erase token tokens

unfoldable pub insert_token : Option ℕ → ℕ → Dict ℕ ℕ → Dict ℕ ℕ
insert_token none n tokens = tokens
insert_token (some token) n tokens = insert token n tokens

-- A token is generated for a request with a callback.
unfoldable pub next_token : Option ℕ → ℕ → Option ℕ
next_token none counter = none
next_token (some callback) counter = some (next counter)

abbrev pub advanced : Option ℕ → ℕ → ℕ
advanced none counter = counter
advanced (some token) counter = token

module _ {F : Type 0} where
  -- map[string]interface{}{"progressToken": token}
  unfoldable pub token_meta : ℕ → Value F
  token_meta token = obj (field "progressToken" (int64 token) end)

  unfoldable pub meta_with : ℕ → Option (Value F) → Value F
  unfolding token_meta
  meta_with token (some (obj meta)) = obj (put "progressToken" (int64 token) meta)
  meta_with token _ = token_meta token

  unfoldable pub add_progress_token : Value F → ℕ → Value F
  unfolding token_meta meta_with
  add_progress_token null token = obj (field "_meta" (token_meta token) end)
  add_progress_token (obj params) token =
      obj (put "_meta" (meta_with token (get "_meta" params)) params)
  add_progress_token params token =
      obj (field "params" params (field "_meta" (token_meta token) end))

  abbrev pub with_token : Option ℕ → Value F → Value F
  with_token none params = params
  with_token (some token) params = add_progress_token params token

module _ {F B : Type 0} where
  unfoldable pub new_progress_message_handler : MessageHandlerConfig → ProgressMessageHandler F B
  new_progress_message_handler config = record {
    base = new_message_handler config;
    progress_requests = [];
    progress_tokens = [];
    token_counter = 0;
    test_progress_callback = none;
    called = [];
    cells = λ _. record {
      request = 0;
      closed = false;
      timer = stopped;
      total_timer = none;
      cancelled = false;
    };
    fresh = 0;
  }

  unfoldable pub set_progress_cell :
      ℕ → ProgressCell → ProgressMessageHandler F B → ProgressMessageHandler F B
  set_progress_cell a c h = record h { cells = λ b. if b == a then c else h.cells b }

  -- Both timers are stopped and the context is cancelled.
  unfoldable pub release_progress : ℕ → ProgressMessageHandler F B → ProgressMessageHandler F B
  unfolding set_progress_cell
  release_progress a h =
      let c = h.cells a in
      set_progress_cell a
        (record c {
          timer = stop c.timer;
          total_timer = elim c.total_timer [ none ↦ none | some t ↦ some (stop t) ];
          cancelled = true;
        })
        h

  -- Both deletions under the lock.
  unfoldable pub untrack :
      ℕ → ProgressPendingRequest → ProgressMessageHandler F B → ProgressMessageHandler F B
  unfolding erase_token
  untrack n p h = record h {
    progress_requests = erase n h.progress_requests;
    progress_tokens = erase_token p.progress_token h.progress_tokens;
  }

  unfoldable pub remove_progress_request :
      ℕ → ProgressMessageHandler F B → ProgressMessageHandler F B
  unfolding untrack release_progress
  remove_progress_request n h = elim (lookup n h.progress_requests) [
    | none ↦ h
    | some p ↦ release_progress p.cell (untrack n p h)
  ]

  -- The timers, the entry of the request and that of its token.
  unfoldable pub track :
      ℕ → Option ℕ → RequestOptions → ProgressMessageHandler F B → ProgressMessageHandler F B
  unfolding insert_token set_progress_cell
  track n token options h =
      let limit = if options.timeout == 0 then h.base.request_timeout else options.timeout in
      let p : ProgressPendingRequest = record {
        id = n;
        cell = h.fresh;
        progress_callback = options.on_progress;
        progress_token = token;
        reset_timeout_on_progress = options.reset_timeout_on_progress;
        timeout = limit;
      } in
      let c : ProgressCell = record {
        request = n;
        closed = false;
        timer = armed;
        total_timer = if ltb 0 options.max_total_timeout then some armed else none;
        cancelled = false;
      } in
      record (set_progress_cell h.fresh c h) {
        fresh = suc h.fresh;
        progress_requests = insert n p h.progress_requests;
        progress_tokens = insert_token token n h.progress_tokens;
      }

  -- The end of SendRequestWithProgress, from the marshalled request on. The context that ends is
  -- the one of the options where they have one.
  unfoldable pub send_progress :
      Select
      → Bool
      → Option B
      → ℕ
      → ℕ
      → ProgressMessageHandler F B
      → ProgressMessageHandler F B × Sent ℕ
  unfolding remove_progress_request
  send_progress sel own none n a h = (remove_progress_request n h, err marshal_failed)
  send_progress sends own (some msg) n a h =
      let b = h.base in
      let s = b.stats in
      (
        record h {
          base = record b {
            outgoing_chan = b.outgoing_chan ++ msg ∷ [];
            stats = record s { requests_sent = s.requests_sent + 1 };
          };
        },
        ok a,
      )
  send_progress aborts own (some msg) n a h =
      let g = remove_progress_request n h in
      let b = g.base in
      (if own then g else record g { base = record b { done = true } }, err context_done)

  unfoldable pub send_request_with_progress :
      Json F B
      → Select
      → String
      → Value F
      → RequestOptions
      → ProgressMessageHandler F B
      → ProgressMessageHandler F B × Sent ℕ
  unfolding next_token track send_progress
  send_request_with_progress json sel method params options h =
      let b = h.base in
      let n = next b.counter in
      let token = next_token options.on_progress h.token_counter in
      let request : Request F = record {
        jsonrpc = "2.0";
        id = int64 n;
        method = method;
        params = with_token token params;
      } in
      if b.done
      then (h, err context_done)
      else send_progress sel options.has_context (json.marshal_request request) n h.fresh (
          track n token options (record h {
            base = record b { counter = n };
            token_counter = advanced token h.token_counter;
          }))

-- ===== src/Internal/Progress/Outcomes.antt =====
-- internal/progress_handler.go: what becomes of a request with progress: its notifications, its
-- timeouts, its response.
use mcp_go_sdk.Prelude.{
  ℕ, ◌+◌, ◌<◌, ◌≡◌, refl, ap, true, false, Option, none, some, [], ◌∷◌, ◌++◌, arith, String,
  nat_Key, Option-cases, inl, inr,
}
use mcp_go_sdk.Prelude.Dict.{lookup, erase, lookup-insert_self, lookup-erase_self}
use mcp_go_sdk.Value.{Value, Fields, int64, float64, obj, get, int64_mod}
use mcp_go_sdk.Shared.Message.{Request, Notification, Response}
use mcp_go_sdk.Internal.Handler.{MessageHandler, Json, sends, ok, returns, next}
use mcp_go_sdk.Internal.Handler.Receiving.{correlate_response}
use mcp_go_sdk.Internal.Handler.Invariant.{Inv}
use mcp_go_sdk.Internal.Handler.Correlation.{Names, correlate_missing, next_small}
use mcp_go_sdk.Internal.Progress.{
  ProgressMessageHandler, ProgressPendingRequest, RequestOptions, next_token, with_token, track,
  send_progress, send_request_with_progress, insert_token, set_progress_cell, untrack,
  release_progress,
}
use mcp_go_sdk.Internal.Progress.Receiving.{
  call, reset_timeout, parse_progress, find_token, progress_of, progress_fields,
  handle_progress_notification, handle_orphaned_progress, handle_request_timeout,
}
use mcp_go_sdk.Internal.Progress.Tracking.{Tracked}
use mcp_go_sdk.Internal.Progress.Sends.{issued}
use mcp_go_sdk.Internal.Progress.Safety.{
  Whole, timed_out, handle_request_timeout_found, set_progress_cell_self,
}

abbrev pub progress_notice : {F : Type 0} → Fields F → Notification F
progress_notice m = record { jsonrpc = "2.0"; method = "notifications/progress"; params = obj m }

module _ {F B : Type 0} where
  -- The first timer of a tracked request to run closes its channel, once, stops tracking it and is
  -- counted; another timer of the same request, or the same one again, then does nothing.
  pub handle_request_timeout-settled :
      (n : ℕ) (p : ProgressPendingRequest) (h : ProgressMessageHandler F B)
      → Tracked h
      → lookup n h.progress_requests ≡ some p
      → let g = timed_out n p h in
        (handle_request_timeout n h ≡ returns g)
        × (lookup n g.progress_requests ≡ none)
        × ((g.cells p.cell).closed ≡ true)
        × (g.base.stats.timeouts ≡ h.base.stats.timeouts + 1)
        × (handle_request_timeout n g ≡ returns g)
  unfolding set_progress_cell release_progress untrack handle_request_timeout erase
  handle_request_timeout-settled n p h (w, l) held =
      let (i, le, below, rq, op, tm) = w n p held in
      let gone = lookup-erase_self n h.progress_requests in
      (
        handle_request_timeout_found n p h held op,
        gone,
        ap (λ c. c.closed)
            (set_progress_cell_self p.cell _ (release_progress p.cell (untrack n p h))),
        refl,
        rw (handle_request_timeout, gone) refl,
      )

  unissued :
      (n : ℕ) (b : MessageHandler F B) → Inv b → b.counter < n → lookup n b.pending_requests ≡ none
  unissued n b v lt = elim (Option-cases (lookup n b.pending_requests)) [
    | inl e ↦ e
    | inr (p, e) ↦ let le = v.bounded n p e in absurd (omega arith)
  ]

  -- What a send leaves of the handler.
  abbrev pub progress_sent :
      RequestOptions → B → ProgressMessageHandler F B → ProgressMessageHandler F B
  progress_sent options bytes h =
      let g =
        track (next h.base.counter) (next_token options.on_progress h.token_counter) options
          (issued options.on_progress h) in
      let b = g.base in
      let s = b.stats in
      record g {
        base = record b {
          outgoing_chan = b.outgoing_chan ++ bytes ∷ [];
          stats = record s { requests_sent = s.requests_sent + 1 };
        };
      }

  -- The request as it is marshalled.
  abbrev pub progress_request : String → Value F → Option ℕ → ProgressMessageHandler F B → Request F
  progress_request method params callback h = record {
    jsonrpc = "2.0";
    id = int64 (next h.base.counter);
    method = method;
    params = with_token (next_token callback h.token_counter) params;
  }

  send_request_with_progress-sent :
      (json : Json F B) (method : String) (params : Value F) (options : RequestOptions) (bytes : B)
      (h : ProgressMessageHandler F B)
      → h.base.done ≡ false
      → json.marshal_request (progress_request method params options.on_progress h) ≡ some bytes
      → send_request_with_progress json sends method params options h
        ≡ (progress_sent options bytes h, ok h.fresh)
  unfolding send_request_with_progress send_progress
  send_request_with_progress-sent json method params options bytes h live enc =
      rw (send_request_with_progress, live, enc) refl

  module _ (to_int : F → ℕ) where
    notice-token :
        (m : Fields F) (t n : ℕ) (p : ProgressPendingRequest) (h : ProgressMessageHandler F B)
        → get "progressToken" m ≡ some (int64 t)
        → lookup t h.progress_tokens ≡ some n
        → lookup n h.progress_requests ≡ some p
        → handle_progress_notification to_int (progress_notice m) h
          ≡ returns
              (reset_timeout p (call p.progress_callback (parse_progress to_int (int64 t) m) h))
    unfolding handle_progress_notification find_token
    notice-token m t n p h named at_t held =
        rw (progress_fields, named, at_t, progress_of, held) refl

    -- A token that encoding/json has decoded, a float64, is found under no key: without the
    -- callback for tests, the notification has no effect whatever requests are tracked.
    pub float_token_unheard :
        (m : Fields F) (x : F) (h : ProgressMessageHandler F B)
        → get "progressToken" m ≡ some (float64 x)
        → h.test_progress_callback ≡ none
        → handle_progress_notification to_int (progress_notice m) h ≡ returns h
    unfolding handle_progress_notification find_token progress_of handle_orphaned_progress call
    float_token_unheard m x h named untested = rw (progress_fields, named, call, untested) refl

    reset_timeout-called :
        (p : ProgressPendingRequest) (h : ProgressMessageHandler F B)
        → (reset_timeout p h).called ≡ h.called
    unfolding reset_timeout set_progress_cell
    reset_timeout-called p h = ground arith

    -- From the request to its callback: after a request with a callback has been sent, where the
    -- handler is not done and the request can be encoded, a notification with the token of the
    -- request, as the int64 that was sent, calls that callback once, with what it says.
    pub send-notified :
        (json : Json F B) (method : String) (params : Value F) (callback : ℕ)
        (others : RequestOptions) (bytes : B) (m : Fields F) (h : ProgressMessageHandler F B)
        → h.base.done ≡ false
        → json.marshal_request (progress_request method params (some callback) h) ≡ some bytes
        → get "progressToken" m ≡ some (int64 (next h.token_counter))
        → let options = record others { on_progress = some callback } in
          let told = parse_progress to_int (int64 (next h.token_counter)) m in
          let (g, result) = send_request_with_progress json sends method params options h in
          (f : ProgressMessageHandler F B) × (result ≡ ok h.fresh)
          × (handle_progress_notification to_int (progress_notice m) g ≡ returns f)
          × (f.called ≡ h.called ++ (callback, told) ∷ [])
    unfolding next_token track insert_token set_progress_cell call
    send-notified json method params callback others bytes m h live enc named =
        let options = record others { on_progress = some callback } in
        let g = progress_sent options bytes h in
        rw (send_request_with_progress-sent json method params options bytes h live enc) (
          _,
          refl,
          notice-token m (next h.token_counter) (next h.base.counter) _ g named
              (lookup-insert_self (next h.token_counter) _ h.progress_tokens)
              (lookup-insert_self (next h.base.counter) _ h.progress_requests),
          reset_timeout-called _ _,
        )

    -- A response to a request with progress that has just been sent is dropped, whether its id is an
    -- int64 or the float64 that stands for it: the base handler, which takes the responses, does
    -- not know the id.
    pub response_dropped :
        (json : Json F B) (method : String) (params : Value F) (options : RequestOptions)
        (bytes : B) (r : Response F) (h : ProgressMessageHandler F B)
        → Whole h
        → h.base.done ≡ false
        → h.base.counter + 1 < int64_mod
        → json.marshal_request (progress_request method params options.on_progress h) ≡ some bytes
        → Names to_int r.id (next h.base.counter)
        → let (g, result) = send_request_with_progress json sends method params options h in
          (result ≡ ok h.fresh) × (correlate_response to_int r g.base ≡ returns g.base)
    unfolding track set_progress_cell
    response_dropped json method params options bytes r h (tracked, v) live small enc named =
        let g = progress_sent options bytes h in
        rw (send_request_with_progress-sent json method params options bytes h live enc) (
          refl,
          correlate_missing to_int r (next h.base.counter) g.base named (
              unissued (next h.base.counter) h.base v
                (rw (next_small h.base.counter small) (omega arith))),
        )

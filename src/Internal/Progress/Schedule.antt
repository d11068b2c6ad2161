-- ===== src/Internal/Progress/Schedule.antt =====
-- internal/progress_handler.go: the operations as the atomic steps of one run. `progress_run` lets
-- any timer run at any time: `expires` is a timer of the request with that id.
use mcp_go_sdk.Prelude.{
  ℕ, ◌+◌, ◌<◌, ◌≡◌, refl, Option, List, [], ◌∷◌, nat_Key, arith, subst, String, length,
}
use mcp_go_sdk.Value.{Value, int64_mod}
use mcp_go_sdk.Shared.Message.{Notification}
use mcp_go_sdk.Internal.Handler.{
  MessageHandlerConfig, Run, returns, panics, unhashable_key, close_of_closed, send_on_closed,
  ◌>>=◌, Json, Select, new_message_handler,
}
use mcp_go_sdk.Internal.Handler.Safety.{new_message_handler-Inv}
use mcp_go_sdk.Internal.Handler.Schedule.{Sound, Sound-bind, Returns-Sound}
use mcp_go_sdk.Internal.Progress.{
  ProgressMessageHandler, RequestOptions, send_request_with_progress, new_progress_message_handler,
}
use mcp_go_sdk.Internal.Progress.Receiving.{
  handle_progress_notification, handle_request_timeout, close_progress, set_test_progress_callback,
}
use mcp_go_sdk.Internal.Progress.Arrivals.{notification-Sound}
use mcp_go_sdk.Internal.Progress.Safety.{Kept, handle_request_timeout-Returns}
use mcp_go_sdk.Internal.Progress.Sends.{
  ProgressWithin, send_request_with_progress-Within, bare-Tracked, close_progress-Kept,
}

pub data ProgressCall (F B : Type 0) : Type 0 where
  sends_with_progress : Select → String → Value F → RequestOptions → ProgressCall F B
  notified : Notification F → ProgressCall F B
  expires : ℕ → ProgressCall F B
  sets_callback : Option ℕ → ProgressCall F B
  closes_progress : ProgressCall F B

module _ {F B : Type 0} (json : Json F B) (to_int : F → ℕ) where
  unfoldable pub progress_step :
      ProgressCall F B → ProgressMessageHandler F B → Run (ProgressMessageHandler F B)
  unfolding set_test_progress_callback
  progress_step (sends_with_progress sel method params options) h =
      returns (send_request_with_progress json sel method params options h).0
  progress_step (notified notification) h = handle_progress_notification to_int notification h
  progress_step (expires n) h = handle_request_timeout n h
  progress_step (sets_callback callback) h = returns (set_test_progress_callback callback h)
  progress_step closes_progress h = close_progress h

  unfoldable pub progress_run :
      List (ProgressCall F B) → ProgressMessageHandler F B → Run (ProgressMessageHandler F B)
  progress_run [] h = returns h
  progress_run (c ∷ cs) h = progress_step c h >>= progress_run cs

  Kept-Sound :
      (k : ℕ) (h : ProgressMessageHandler F B) (m : Run (ProgressMessageHandler F B))
      → Sound (Kept h) m
      → ProgressWithin k h
      → Sound (ProgressWithin (k + 1)) m
  Kept-Sound k h (returns g) (w, same, as_was) (v, le, few) = (w, omega arith, omega arith)
  Kept-Sound k h (panics unhashable_key) s v = tt
  Kept-Sound k h (panics close_of_closed) s v = absurd s
  Kept-Sound k h (panics send_on_closed) s v = absurd s

  progress_step-Sound :
      (c : ProgressCall F B) (k : ℕ) (h : ProgressMessageHandler F B)
      → ProgressWithin k h
      → k + 1 < int64_mod
      → Sound (ProgressWithin (k + 1)) (progress_step c h)
  unfolding progress_step
  progress_step-Sound (sends_with_progress sel method params options) k h v small =
      send_request_with_progress-Within json sel method params options k h v small
  progress_step-Sound (notified n) k h (v, le, few) small =
      Kept-Sound k h _ (notification-Sound to_int n.params n.method n.jsonrpc h v) (v, le, few)
  progress_step-Sound (expires n) k h (v, le, few) small =
      Kept-Sound k h _ (Returns-Sound (Kept h) _ (handle_request_timeout-Returns n h v))
        (v, le, few)
  progress_step-Sound (sets_callback callback) k h (v, le, few) small =
      (v, omega arith, omega arith)
  progress_step-Sound closes_progress k h (v, le, few) small =
      Kept-Sound k h _ (Returns-Sound (Kept h) _ (close_progress-Kept h v)) (v, le, few)

  progress_run-Within :
      (cs : List (ProgressCall F B)) (k : ℕ) (h : ProgressMessageHandler F B)
      → ProgressWithin k h
      → k + length cs < int64_mod
      → Sound (ProgressWithin (k + length cs)) (progress_run cs h)
  unfolding progress_run
  progress_run-Within [] k h (v, le, few) small = (v, omega arith, omega arith)
  progress_run-Within (c ∷ cs) k h w small =
      Sound-bind (ProgressWithin (k + 1)) (ProgressWithin (k + length (c ∷ cs))) (progress_step c h)
        _ (progress_step-Sound c k h w (omega arith))
        λ g w'.
          subst (λ n. Sound (ProgressWithin n) (progress_run cs g))
            (let e : (k + 1) + length cs ≡ k + length (c ∷ cs) = omega arith in e)
            (progress_run-Within cs (k + 1) g w' (omega arith))

  -- From a new handler, fewer than 2 ^ 64 sends, progress notifications, timeouts and closings in
  -- any order never close a response channel twice; they come back, or panic on a token that cannot
  -- be the key of a map. Where they come back, every tracked request has an open channel and a
  -- running timer, and the tokens lead exactly to the tracked requests that carry them.
  pub progress_run-Sound :
      (config : MessageHandlerConfig) (cs : List (ProgressCall F B))
      → length cs < int64_mod
      → Sound (ProgressWithin (length cs)) (progress_run cs (new_progress_message_handler config))
  unfolding new_progress_message_handler new_message_handler
  progress_run-Sound config cs small =
      subst (λ n. Sound (ProgressWithin n) (progress_run cs (new_progress_message_handler config)))
        (let e : 0 + length cs ≡ length cs = omega arith in e)
        (progress_run-Within cs 0 (new_progress_message_handler config)
          (
            (
              bare-Tracked {F = F} {B = B} (new_progress_message_handler config) refl refl,
              new_message_handler-Inv F B config,
            ),
            omega arith,
            omega arith,
          )
          (omega arith))

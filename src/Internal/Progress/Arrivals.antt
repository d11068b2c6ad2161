-- ===== src/Internal/Progress/Arrivals.antt =====
-- internal/progress_handler.go: the invariant under a progress notification.
use mcp_go_sdk.Prelude.{
  ℕ, refl, Option, none, some, nat_Key, inl, inr, Option-cases, Bool-cases, arith, String, if_elim,
}
use mcp_go_sdk.Prelude.Dict.{lookup}
use mcp_go_sdk.Value.{
  Value, Fields, null, boolean, int, int64, float64, str, arr, obj, get, is_hashable,
}
use mcp_go_sdk.Internal.Handler.Schedule.{Sound}
use mcp_go_sdk.Internal.Progress.{
  ProgressMessageHandler, ProgressPendingRequest, ProgressParams, set_progress_cell,
}
use mcp_go_sdk.Internal.Progress.Receiving.{
  call, reset_timeout, progress_of, progress_fields, handle_progress_notification, parse_progress,
  handle_orphaned_progress,
}
use mcp_go_sdk.Internal.Progress.Safety.{Whole, Kept}

module _ {F B : Type 0} where
  call-Kept :
      (callback : Option ℕ) (g h : ProgressMessageHandler F B) (params : ProgressParams F)
      → Kept h g
      → Kept h (call callback params g)
  unfolding call
  call-Kept none g h params k = k
  call-Kept (some callback) g h params k = k

  reset_timeout-Kept :
      (p : ProgressPendingRequest) (g h : ProgressMessageHandler F B)
      → Kept h g
      → Kept h (reset_timeout p g)
  unfolding reset_timeout set_progress_cell
  reset_timeout-Kept p g h (((w, l), v), same, as_was) =
      if_elim (Kept h) p.reset_timeout_on_progress _ g
        (λ _. (
          (
            (
              λ m q hit.
                  let (i, le, below, rq, op, tm) = w m q hit in
                  (i, le, below, ground arith, ground arith, ground arith),
              l,
            ),
            v,
          ),
          same,
          as_was,
        ))
        (λ _. (((w, l), v), same, as_was))

  module _ (to_int : F → ℕ) where
    progress_of-Kept :
        (found : Option ℕ) (token : Value F) (m : Fields F) (h : ProgressMessageHandler F B)
        → Whole h
        → Kept h (progress_of to_int found token m h)
    unfolding progress_of handle_orphaned_progress
    progress_of-Kept none token m h k =
        call-Kept h.test_progress_callback h h (parse_progress to_int token m) (k, refl, refl)
    progress_of-Kept (some n) token m h k = elim (Option-cases (lookup n h.progress_requests)) [
      | inl gone ↦ rw (progress_of, gone) (k, refl, refl)
      | inr (p, held) ↦
          rw (progress_of, held)
            (reset_timeout-Kept p (call p.progress_callback (parse_progress to_int token m) h) h
              (call-Kept p.progress_callback h h (parse_progress to_int token m) (k, refl, refl)))
    ]

    progress_fields-Sound :
        (m : Fields F) (h : ProgressMessageHandler F B)
        → Whole h
        → Sound (Kept h) (progress_fields to_int m h)
    unfolding progress_fields
    progress_fields-Sound m h k = elim (Option-cases (get "progressToken" m)) [
      | inl e ↦ rw (progress_fields, e) (k, refl, refl)
      | inr (token, e) ↦ elim (Bool-cases (is_hashable token)) [
        | inl good ↦ rw (progress_fields, e, good) (progress_of-Kept _ token m h k)
        | inr bad ↦ rw (progress_fields, e, bad) tt
      ]
    ]

    pub notification-Sound :
        (params : Value F) (method jsonrpc : String) (h : ProgressMessageHandler F B)
        → Whole h
        → Sound (Kept h) (
            handle_progress_notification to_int
              (record { jsonrpc = jsonrpc; method = method; params = params })
              h)
    unfolding handle_progress_notification
    notification-Sound null method jsonrpc h k = (k, refl, refl)
    notification-Sound (boolean b) method jsonrpc h k = (k, refl, refl)
    notification-Sound (int n) method jsonrpc h k = (k, refl, refl)
    notification-Sound (int64 n) method jsonrpc h k = (k, refl, refl)
    notification-Sound (float64 x) method jsonrpc h k = (k, refl, refl)
    notification-Sound (str s) method jsonrpc h k = (k, refl, refl)
    notification-Sound (arr xs) method jsonrpc h k = (k, refl, refl)
    notification-Sound (obj m) method jsonrpc h k = progress_fields-Sound m h k

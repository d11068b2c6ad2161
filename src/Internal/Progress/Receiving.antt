-- ===== src/Internal/Progress/Receiving.antt =====
-- internal/progress_handler.go: progress notifications, timeouts, Close. `to_int` is Go's conversion
-- of a float64.
use mcp_go_sdk.Prelude.{
  ℕ, ◌+◌, true, Option, none, some, List, [], ◌∷◌, ◌++◌, String, nat_Key, if◌then◌else◌,
}
use mcp_go_sdk.Prelude.Dict.{Dict, lookup, values}
use mcp_go_sdk.Value.{Value, Fields, int, int64, float64, obj, get, is_hashable, as_string}
use mcp_go_sdk.Shared.Message.{Notification}
use mcp_go_sdk.Internal.Handler.{
  armed, Run, returns, panics, close_of_closed, unhashable_key, ◌>>=◌,
}
use mcp_go_sdk.Internal.Handler.Receiving.{close}
use mcp_go_sdk.Internal.Progress.{
  ProgressMessageHandler, ProgressPendingRequest, ProgressParams, set_progress_cell,
  release_progress, untrack,
}

-- `progressTokens[token]`: every key of this map is an int64.
unfoldable pub find_token : {F : Type 0} → Value F → Dict ℕ ℕ → Option ℕ
find_token (int64 token) tokens = lookup token tokens
find_token _ tokens = none

module _ {F : Type 0} (to_int : F → ℕ) where
  -- A float64 or an int; anything else leaves the field as it was.
  unfoldable pub as_int : Value F → Option ℕ
  as_int (float64 x) = some (to_int x)
  as_int (int n) = some n
  as_int _ = none

  unfoldable pub int_at : String → Fields F → Option ℕ
  unfolding as_int
  int_at key m = elim (get key m) [ none ↦ none | some v ↦ as_int v ]

  unfoldable pub string_at : String → Fields F → Option String
  string_at key m = elim (get key m) [ none ↦ none | some v ↦ as_string v ]

  unfoldable pub parse_progress : Value F → Fields F → ProgressParams F
  unfolding int_at string_at
  parse_progress token m = record {
    progress_token = token;
    progress = elim (int_at "progress" m) [ none ↦ 0 | some n ↦ n ];
    total = int_at "total" m;
    message = elim (string_at "message" m) [ none ↦ "" | some s ↦ s ];
  }

module _ {F B : Type 0} where
  unfoldable pub set_test_progress_callback :
      Option ℕ → ProgressMessageHandler F B → ProgressMessageHandler F B
  set_test_progress_callback callback h = record h { test_progress_callback = callback }

  unfoldable pub call :
      Option ℕ → ProgressParams F → ProgressMessageHandler F B → ProgressMessageHandler F B
  call none params h = h
  call (some callback) params h = record h { called = h.called ++ (callback, params) ∷ [] }

  unfoldable pub reset_timeout :
      ProgressPendingRequest → ProgressMessageHandler F B → ProgressMessageHandler F B
  unfolding set_progress_cell
  reset_timeout p h =
      let c = h.cells p.cell in
      if p.reset_timeout_on_progress
      then set_progress_cell p.cell (record c { timer = armed }) h
      else h

  unfoldable pub close_response : ℕ → ProgressMessageHandler F B → Run (ProgressMessageHandler F B)
  unfolding set_progress_cell
  close_response a h =
      let c = h.cells a in
      if c.closed
      then panics close_of_closed
      else returns (set_progress_cell a (record c { closed = true }) h)

  abbrev pub count_timeout : ProgressMessageHandler F B → ProgressMessageHandler F B
  count_timeout h =
      let b = h.base in
      let s = b.stats in
      record h { base = record b { stats = record s { timeouts = s.timeouts + 1 } } }

  unfoldable pub handle_request_timeout :
      ℕ → ProgressMessageHandler F B → Run (ProgressMessageHandler F B)
  unfolding untrack release_progress close_response
  handle_request_timeout n h = elim (lookup n h.progress_requests) [
    | none ↦ returns h
    | some p ↦ close_response p.cell (release_progress p.cell (untrack n p h)) >>= λ g.
        returns (count_timeout g)
  ]

  unfoldable pub release_all :
      List ProgressPendingRequest → ProgressMessageHandler F B → ProgressMessageHandler F B
  release_all [] h = h
  release_all (p ∷ ps) h = release_all ps (release_progress p.cell h)

  unfoldable pub close_progress : ProgressMessageHandler F B → Run (ProgressMessageHandler F B)
  unfolding release_all
  close_progress h =
      let g =
        release_all (values h.progress_requests)
          (record h { progress_requests = []; progress_tokens = [] }) in
      close g.base >>= λ b. returns (record g { base = b })

  module _ (to_int : F → ℕ) where
    unfoldable pub handle_orphaned_progress :
        Fields F → Value F → ProgressMessageHandler F B → ProgressMessageHandler F B
    unfolding call
    handle_orphaned_progress m token h =
        call h.test_progress_callback (parse_progress to_int token m) h

    -- The part of handleProgressNotification after the lookup of the token.
    unfoldable pub progress_of :
        Option ℕ → Value F → Fields F → ProgressMessageHandler F B → ProgressMessageHandler F B
    unfolding handle_orphaned_progress call reset_timeout
    progress_of none token m h = handle_orphaned_progress m token h
    progress_of (some n) token m h = elim (lookup n h.progress_requests) [
      | none ↦ h
      | some p ↦ reset_timeout p (call p.progress_callback (parse_progress to_int token m) h)
    ]

    unfoldable pub progress_fields :
        Fields F → ProgressMessageHandler F B → Run (ProgressMessageHandler F B)
    unfolding progress_of
    progress_fields m h = elim (get "progressToken" m) [
      | none ↦ returns h
      | some token ↦
          if is_hashable token
          then returns (progress_of (find_token token h.progress_tokens) token m h)
          else panics unhashable_key
    ]

    unfoldable pub handle_progress_notification :
        Notification F → ProgressMessageHandler F B → Run (ProgressMessageHandler F B)
    unfolding progress_fields
    handle_progress_notification notification h = elim notification.params [
      | obj m ↦ progress_fields m h
      | _ ↦ returns h
    ]

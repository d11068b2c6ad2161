-- ===== src/Internal/Progress/Sends.antt =====
-- internal/progress_handler.go: the invariant under a send and under Close.
use mcp_go_sdk.Prelude.{
  ℕ, ◌+◌, ◌≤◌, ◌<◌, ◌≡◌, ◌≢◌, refl, Bool, Option, none, some, List, [], ◌∷◌, nat_Key, arith, sym,
  ◌∙◌, ap, subst, String, if_elim,
}
use mcp_go_sdk.Prelude.Dict.{lookup, values}
use mcp_go_sdk.Value.{Value, int64_mod}
use mcp_go_sdk.Internal.Handler.{MessageHandler, Json, Sent, Select, sends, aborts, next}
use mcp_go_sdk.Internal.Handler.Receiving.{close}
use mcp_go_sdk.Internal.Handler.Invariant.{Inv, Keeps, Returns, bind-Returns}
use mcp_go_sdk.Internal.Handler.Safety.{close-Returns}
use mcp_go_sdk.Internal.Progress.{
  ProgressMessageHandler, ProgressPendingRequest, RequestOptions, set_progress_cell, track,
  next_token, advanced, send_progress, send_request_with_progress, release_progress,
}
use mcp_go_sdk.Internal.Progress.Receiving.{close_progress, release_all}
use mcp_go_sdk.Internal.Progress.Tracking.{
  Tracked, insert-Waiting, insert-Linked, fresh_none, Issues,
}
use mcp_go_sdk.Internal.Progress.Safety.{
  Whole, Kept, set_progress_cell_self, set_progress_cell-Elsewhere, remove_progress_request-Kept,
}

next_token-Issues :
    (callback : Option ℕ) (counter : ℕ)
    → counter + 1 < int64_mod
    → Issues (next_token callback counter) counter (advanced (next_token callback counter) counter)
unfolding next_token next
next_token-Issues none counter small = refl
next_token-Issues (some callback) counter small = (omega arith, refl)

advanced-bound :
    (callback : Option ℕ) (counter : ℕ)
    → counter + 1 < int64_mod
    → advanced (next_token callback counter) counter ≤ counter + 1
unfolding next_token next
advanced-bound none counter small = omega arith
advanced-bound (some callback) counter small = omega arith

none-some : {A : Type 0} (a : A) → none ≢ some a
none-some a e = ground arith

module _ {F B : Type 0} where
  -- The counter of ids alone goes on.
  raise : (n : ℕ) (b : MessageHandler F B) → Inv b → b.counter ≤ n → Inv (record b { counter = n })
  raise n b v le = record {
    live = v.live;
    bounded = λ m p hit. omega (arith, v.bounded m p hit);
    distinct = v.distinct;
    covered = v.covered;
  }

  -- The handler with the next id and token given out, as SendRequestWithProgress stores them.
  abbrev pub issued : Option ℕ → ProgressMessageHandler F B → ProgressMessageHandler F B
  issued callback h =
      let b = h.base in
      record h {
        base = record b { counter = next b.counter };
        token_counter = advanced (next_token callback h.token_counter) h.token_counter;
      }

  pub track-Whole :
      (options : RequestOptions) (h : ProgressMessageHandler F B)
      → Whole h
      → h.base.counter + 1 < int64_mod
      → h.token_counter + 1 < int64_mod
      → Whole (
          track
            (next h.base.counter)
            (next_token options.on_progress h.token_counter)
            options
            (issued options.on_progress h))
  unfolding track next set_progress_cell
  track-Whole options h ((w, l), v) small few =
      let n = next h.base.counter in
      let above : h.base.counter < n = omega arith in
      (
        (
          insert-Waiting n _ h.progress_requests h.cells _ h.fresh h.base.counter w above
              (set_progress_cell-Elsewhere h.fresh _ (issued options.on_progress h))
              (
                refl,
                omega arith,
                omega arith,
                ap (λ c. c.request)
                    (set_progress_cell_self h.fresh _ (issued options.on_progress h)),
                ap (λ c. c.closed)
                    (set_progress_cell_self h.fresh _ (issued options.on_progress h)),
                ap (λ c. c.timer) (set_progress_cell_self h.fresh _ (issued options.on_progress h)),
              ),
          insert-Linked n (next_token options.on_progress h.token_counter) _ h.progress_requests
              h.progress_tokens h.token_counter _ l
              (fresh_none n h.progress_requests h.cells h.fresh h.base.counter w above) refl
              (next_token-Issues options.on_progress h.token_counter few),
        ),
        raise n h.base v (omega arith),
      )

  send_progress-Kept :
      (sel : Select) (own : Bool) (msg : Option B) (n a : ℕ) (h : ProgressMessageHandler F B)
      → Whole h
      → Kept h (send_progress sel own msg n a h).0
  unfolding send_progress
  send_progress-Kept sel own none n a h k = remove_progress_request-Kept n h k
  send_progress-Kept sends own (some msg) n a h k = (k, refl, refl)
  send_progress-Kept aborts own (some msg) n a h k =
      let kept = remove_progress_request-Kept n h k in
      if_elim (Kept h) own _ _ (λ _. kept) (λ _. kept)

  -- The invariant, with at most `k` ids and tokens given out.
  abbrev pub ProgressWithin : ℕ → ProgressMessageHandler F B → Type 0
  ProgressWithin k h = Whole h × (h.base.counter ≤ k) × (h.token_counter ≤ k)

  pub send_request_with_progress-Within :
      (json : Json F B) (sel : Select) (method : String) (params : Value F)
      (options : RequestOptions) (k : ℕ) (h : ProgressMessageHandler F B)
      → ProgressWithin k h
      → k + 1 < int64_mod
      → ProgressWithin (k + 1) (send_request_with_progress json sel method params options h).0
  unfolding send_request_with_progress track next
  send_request_with_progress-Within json sel method params options k h (v, le, few) small =
      if_elim {A = ProgressMessageHandler F B × Sent ℕ} (λ r. ProgressWithin (k + 1) r.0)
        h.base.done _ _ (λ _. (v, omega arith, omega arith))
        (λ _.
          let g =
            track (next h.base.counter) (next_token options.on_progress h.token_counter) options
              (issued options.on_progress h) in
          let (w, same, as_was) =
            send_progress-Kept sel options.has_context _ (next h.base.counter) h.fresh g
              (track-Whole options h v (omega arith) (omega arith)) in
          (
            w,
            omega arith,
            omega (arith, advanced-bound options.on_progress h.token_counter (omega arith)),
          ))

  abbrev pub Cleared : ProgressMessageHandler F B → ProgressMessageHandler F B → Type 0
  Cleared h g =
      (g.progress_requests ≡ [])
      × (g.progress_tokens ≡ [])
      × (g.base ≡ h.base)
      × (g.token_counter ≡ h.token_counter)

  release_all-Cleared :
      (ps : List ProgressPendingRequest) (h g : ProgressMessageHandler F B)
      → Cleared h g
      → Cleared h (release_all ps g)
  unfolding release_all release_progress set_progress_cell
  release_all-Cleared [] h g k = k
  release_all-Cleared (p ∷ ps) h g k = release_all-Cleared ps h (release_progress p.cell g) k

  pub bare-Tracked :
      (g : ProgressMessageHandler F B)
      → g.progress_requests ≡ []
      → g.progress_tokens ≡ []
      → Tracked g
  unfolding lookup
  bare-Tracked g bare empty =
      let nothing = λ (n : ℕ). ap (lookup n) bare in
      let untold = λ (t : ℕ). ap (lookup t) empty in
      (
        λ n p hit. absurd (none-some p (sym (nothing n) ∙ hit)),
        record {
          stored = λ n t p hit own. absurd (none-some p (sym (nothing n) ∙ hit));
          owned = λ n t hit. absurd (none-some n (sym (untold t) ∙ hit));
          bounded = λ n t hit. absurd (none-some n (sym (untold t) ∙ hit));
        },
      )

  pub close_progress-Kept :
      (h : ProgressMessageHandler F B) → Whole h → Returns (Kept h) (close_progress h)
  unfolding close_progress
  close_progress-Kept h (tracked, v) =
      let start = record h { progress_requests = []; progress_tokens = [] } in
      let g = release_all (values h.progress_requests) start in
      let k = release_all-Cleared (values h.progress_requests) h start (refl, refl, refl, refl) in
      let (bare, empty, same, as_was) = k in
      bind-Returns (Keeps h.base.counter) (Kept h) (close g.base) _
        (subst (λ b. Returns (Keeps h.base.counter) (close b)) (sym same) (close-Returns h.base v))
        (λ b (inv, e). ((bare-Tracked (record g { base = b }) bare empty, inv), e, as_was))

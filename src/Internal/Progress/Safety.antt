-- ===== src/Internal/Progress/Safety.antt =====
-- internal/progress_handler.go: the invariant under a timeout and a removal, and under single steps.
use mcp_go_sdk.Prelude.{
  ℕ, ◌≡◌, refl, true, false, some, nat_Key, inl, inr, Option-cases, arith, ◌∙◌, ap,
}
use mcp_go_sdk.Prelude.Dict.{lookup}
use mcp_go_sdk.Internal.Handler.{returns}
use mcp_go_sdk.Internal.Handler.Invariant.{Inv, Returns}
use mcp_go_sdk.Internal.Progress.{
  ProgressMessageHandler, ProgressPendingRequest, ProgressCell, set_progress_cell, release_progress,
  untrack, remove_progress_request,
}
use mcp_go_sdk.Internal.Progress.Receiving.{close_response, count_timeout, handle_request_timeout}
use mcp_go_sdk.Internal.Progress.Tracking.{Tracked, Elsewhere, erase-Waiting, erase-Linked}

module _ {F B : Type 0} where
  pub set_progress_cell_self :
      (a : ℕ) (c : ProgressCell) (h : ProgressMessageHandler F B)
      → (set_progress_cell a c h).cells a ≡ c
  unfolding set_progress_cell
  set_progress_cell_self a c h = ground (arith, nat_Key.same_iff a a)

  pub set_progress_cell-Elsewhere :
      (a : ℕ) (c : ProgressCell) (h : ProgressMessageHandler F B)
      → Elsewhere (set_progress_cell a c h).cells h.cells a
  unfolding set_progress_cell
  set_progress_cell-Elsewhere a c h b ne = ground (arith, nat_Key.same_iff b a)

  pub release_progress-Elsewhere :
      (a : ℕ) (h : ProgressMessageHandler F B) → Elsewhere (release_progress a h).cells h.cells a
  unfolding release_progress
  release_progress-Elsewhere a h = set_progress_cell-Elsewhere a _ h

  pub release_progress-closed :
      (a : ℕ) (h : ProgressMessageHandler F B)
      → ((release_progress a h).cells a).closed ≡ (h.cells a).closed
  unfolding release_progress
  release_progress-closed a h = ap (λ c. c.closed) (set_progress_cell_self a _ h)

  abbrev pub with_closed : ℕ → ProgressMessageHandler F B → ProgressMessageHandler F B
  with_closed a h = let c = h.cells a in set_progress_cell a (record c { closed = true }) h

  pub close_response_open :
      (a : ℕ) (h : ProgressMessageHandler F B)
      → (h.cells a).closed ≡ false
      → close_response a h ≡ returns (with_closed a h)
  unfolding close_response
  close_response_open a h op = rw (close_response, op) refl

  -- What a timeout leaves of the handler.
  abbrev pub timed_out :
      ℕ → ProgressPendingRequest → ProgressMessageHandler F B → ProgressMessageHandler F B
  timed_out n p h = count_timeout (with_closed p.cell (release_progress p.cell (untrack n p h)))

  pub handle_request_timeout_found :
      (n : ℕ) (p : ProgressPendingRequest) (h : ProgressMessageHandler F B)
      → lookup n h.progress_requests ≡ some p
      → (h.cells p.cell).closed ≡ false
      → handle_request_timeout n h ≡ returns (timed_out n p h)
  unfolding untrack handle_request_timeout set_progress_cell
  handle_request_timeout_found n p h held op =
      rw
        (
          handle_request_timeout,
          held,
          close_response_open p.cell (release_progress p.cell (untrack n p h))
              (release_progress-closed p.cell (untrack n p h) ∙ op),
        )
        refl

  abbrev pub Whole : ProgressMessageHandler F B → Type 0
  Whole h = Tracked h × Inv h.base

  -- The invariant, with both counters as they were.
  abbrev pub Kept : ProgressMessageHandler F B → ProgressMessageHandler F B → Type 0
  Kept h g = Whole g × (g.base.counter ≡ h.base.counter) × (g.token_counter ≡ h.token_counter)

  pub remove_progress_request-Kept :
      (n : ℕ) (h : ProgressMessageHandler F B) → Whole h → Kept h (remove_progress_request n h)
  unfolding remove_progress_request untrack release_progress set_progress_cell
  remove_progress_request-Kept n h ((w, l), v) =
      elim (Option-cases (lookup n h.progress_requests)) [
        | inl gone ↦ rw (remove_progress_request, gone) (((w, l), v), refl, refl)
        | inr (p, held) ↦
            rw (remove_progress_request, held)
              (
                (
                  (
                    erase-Waiting n p h.progress_requests h.cells _ h.fresh h.base.counter w held
                        (release_progress-Elsewhere p.cell (untrack n p h)),
                    erase-Linked n p h.progress_requests h.progress_tokens h.token_counter l held,
                  ),
                  v,
                ),
                refl,
                refl,
              )
      ]

  timed_out-Elsewhere :
      (n : ℕ) (p : ProgressPendingRequest) (h : ProgressMessageHandler F B)
      → Elsewhere (timed_out n p h).cells h.cells p.cell
  unfolding untrack
  timed_out-Elsewhere n p h b ne =
      set_progress_cell-Elsewhere p.cell _ (release_progress p.cell (untrack n p h)) b ne
      ∙ release_progress-Elsewhere p.cell (untrack n p h) b ne

  timed_out-Kept :
      (n : ℕ) (p : ProgressPendingRequest) (h : ProgressMessageHandler F B)
      → Whole h
      → lookup n h.progress_requests ≡ some p
      → Kept h (timed_out n p h)
  unfolding untrack release_progress set_progress_cell
  timed_out-Kept n p h ((w, l), v) held = (
    (
      (
        erase-Waiting n p h.progress_requests h.cells _ h.fresh h.base.counter w held
            (timed_out-Elsewhere n p h),
        erase-Linked n p h.progress_requests h.progress_tokens h.token_counter l held,
      ),
      v,
    ),
    refl,
    refl,
  )

  pub handle_request_timeout-Returns :
      (n : ℕ) (h : ProgressMessageHandler F B)
      → Whole h
      → Returns (Kept h) (handle_request_timeout n h)
  unfolding handle_request_timeout
  handle_request_timeout-Returns n h ((w, l), v) =
      elim (Option-cases (lookup n h.progress_requests)) [
        | inl gone ↦ rw (handle_request_timeout, gone) (((w, l), v), refl, refl)
        | inr (p, held) ↦
            let (i, le, below, rq, op, tm) = w n p held in
            rw (handle_request_timeout_found n p h held op) (timed_out-Kept n p h ((w, l), v) held)
      ]

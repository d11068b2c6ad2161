-- ===== src/Server/Workers/Conservation.antt =====
-- server/server.go: where the requests are that have arrived, counted by their ids.
use mcp_go_sdk.Prelude.Choice.{pick}
use mcp_go_sdk.Prelude.{
  ℕ, zero, suc, ◌+◌, ◌≡◌, refl, ◌∙◌, ap, Bool, Option, none, some, List, [], ◌∷◌, ◌++◌, inl, inr,
  if◌then◌else◌, Option-cases, arith,
}
use mcp_go_sdk.Value.{Value}
use mcp_go_sdk.Shared.Message.{Request, rpc_error, server_overloaded}
use mcp_go_sdk.Server.{Server, ServerConfig, Reply, error, Outgoing, response, notification}
use mcp_go_sdk.Server.Registration.{Change, adds_handler, new_server}
use mcp_go_sdk.Server.Handlers.{Params, handle_request, reply_to}
use mcp_go_sdk.Server.Notices.{announced, change-announced}
use mcp_go_sdk.Server.Workers.{
  Workers, Event, arrives, takes, starts, finishes, registers, start, process_request,
  dispatch_take, dispatch_start, finish, advance, advances,
}

module _ {F : Type 0} where
  module _ (p : Value F → Bool) where
    -- How many ids pass a test.
    abbrev pub tally : List (Request F) → ℕ
    tally [] = 0
    tally (r ∷ rs) = (if p r.id then 1 else 0) + tally rs

    abbrev pub tally_held : Option (Request F) → ℕ
    tally_held none = 0
    tally_held (some r) = if p r.id then 1 else 0

    abbrev pub tally_answers : List (Outgoing F) → ℕ
    tally_answers [] = 0
    tally_answers (response id reply ∷ os) = (if p id then 1 else 0) + tally_answers os
    tally_answers (notification method ∷ os) = tally_answers os

    abbrev pub tally_arrivals : List (Event F) → ℕ
    tally_arrivals [] = 0
    tally_arrivals (arrives r ∷ es) = (if p r.id then 1 else 0) + tally_arrivals es
    tally_arrivals (_ ∷ es) = tally_arrivals es

    -- All requests of the server, answered or on their way.
    abbrev pub tally_all : Workers F → ℕ
    tally_all w =
        tally_answers w.server.sent + tally w.request_chan + tally_held w.held + tally w.active

    tally_arrivals-cons :
        (e : Event F) (es : List (Event F))
        → tally_arrivals (e ∷ es) ≡ tally_arrivals (e ∷ []) + tally_arrivals es
    tally_arrivals-cons (arrives r) es = omega arith
    tally_arrivals-cons _ es = omega arith

    tally-append : (xs ys : List (Request F)) → tally (xs ++ ys) ≡ tally xs + tally ys
    tally-append [] ys = omega arith
    tally-append (x ∷ xs) ys = omega (arith, tally-append xs ys)

    tally_answers-append :
        (xs ys : List (Outgoing F)) → tally_answers (xs ++ ys) ≡ tally_answers xs + tally_answers ys
    tally_answers-append [] ys = omega arith
    tally_answers-append (response id reply ∷ xs) ys = omega (arith, tally_answers-append xs ys)
    tally_answers-append (notification m ∷ xs) ys = omega (arith, tally_answers-append xs ys)

    tally-pick :
        (i : ℕ) (xs : List (Request F)) (q : Request F × List (Request F))
        → pick i xs ≡ some q
        → tally xs ≡ (if p q.0.id then 1 else 0) + tally q.1
    unfolding pick
    tally-pick i [] q e = cc
    tally-pick zero (x ∷ xs) q e = ground arith
    tally-pick (suc i) (x ∷ xs) q e = elim (Option-cases (pick i xs)) [
      | inl missing ↦ ground arith
      | inr (r, found) ↦ ground (arith, tally-pick i xs r found)
    ]

    announced_silent : (c : Change F) (s : Server F) → tally_answers (announced c s) ≡ 0
    announced_silent (adds_handler method h) s = refl
    announced_silent _ s = ground arith

    finish-tally :
        (codec : Params F) (w : Workers F) (q : Option (Request F × List (Request F)))
        → ((r : Request F × List (Request F))
            → q ≡ some r
            → tally w.active ≡ (if p r.0.id then 1 else 0) + tally r.1)
        → tally_all (finish codec q w) ≡ tally_all w
    unfolding finish handle_request
    finish-tally codec w none out = refl
    finish-tally codec w (some (r, rest)) out = omega (
      arith,
      out (r, rest) refl,
      tally_answers-append w.server.sent (response r.id (reply_to codec r w.server) ∷ []),
    )

    dispatch_take-tally :
        (h : Option (Request F)) (q : List (Request F)) (w : Workers F)
        → w.held ≡ h
        → w.request_chan ≡ q
        → tally_all (dispatch_take h q w) ≡ tally_all w
    unfolding dispatch_take
    dispatch_take-tally none (r ∷ rs) w eh eq = omega (arith, ap tally_held eh, ap tally eq)
    dispatch_take-tally none [] w eh eq = refl
    dispatch_take-tally (some r) q w eh eq = refl

    dispatch_start-tally :
        (h : Option (Request F)) (n : ℕ) (w : Workers F)
        → w.held ≡ h
        → tally_all (dispatch_start h n w) ≡ tally_all w
    unfolding dispatch_start
    dispatch_start-tally (some r) (suc n) w eh =
        omega (arith, ap tally_held eh, tally-append w.active (r ∷ []))
    dispatch_start-tally (some r) zero w eh = refl
    dispatch_start-tally none n w eh = refl

    -- What an event adds to the requests of the server.
    advance-tally :
        (codec : Params F) (e : Event F) (w : Workers F)
        → tally_all (advance codec e w) ≡ tally_all w + tally_arrivals (e ∷ [])
    unfolding advance process_request dispatch_take dispatch_start
    advance-tally codec (arrives r) w = ground (
      arith,
      tally-append w.request_chan (r ∷ []),
      tally_answers-append w.server.sent (response r.id overloaded ∷ []),
    )
      where
        overloaded : Reply F
        overloaded = error (rpc_error server_overloaded "Server overloaded")
    advance-tally codec takes w =
        dispatch_take-tally w.held w.request_chan w refl refl ∙ omega arith
    advance-tally codec starts w = dispatch_start-tally w.held w.worker_pool w refl ∙ omega arith
    advance-tally codec (finishes i) w =
        finish-tally codec w (pick i w.active) (λ r e. tally-pick i w.active r e) ∙ omega arith
    advance-tally codec (registers c) w = omega (
      arith,
      ap tally_answers (change-announced c w.server),
      tally_answers-append w.server.sent (announced c w.server),
      announced_silent c w.server,
    )

    advances-tally_from :
        (codec : Params F) (es : List (Event F)) (w : Workers F)
        → tally_all (advances codec es w) ≡ tally_all w + tally_arrivals es
    unfolding advances
    advances-tally_from codec [] w = omega arith
    advances-tally_from codec (e ∷ es) w = omega (
      arith,
      advances-tally_from codec es (advance codec e w),
      advance-tally codec e w,
      tally_arrivals-cons e es,
    )

    -- Every request that arrived is answered once, by its handler or as overloaded, or is still
    -- queued, held by the dispatcher or being handled: of every set of ids, as many of each.
    pub advances-tally :
        (codec : Params F) (config : ServerConfig) (es : List (Event F))
        → tally_all (advances codec es (start config)) ≡ tally_arrivals es
    unfolding start new_server
    advances-tally codec config es = advances-tally_from codec es (start config) ∙ omega arith

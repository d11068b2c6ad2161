-- ===== src/Server/Workers/Bounds.antt =====
-- server/server.go: the pool of workers and the bound of the queue.
use mcp_go_sdk.Prelude.Choice.{pick, length-pick}
use mcp_go_sdk.Prelude.{
  ℕ, zero, suc, ◌+◌, ◌≤◌, ◌≡◌, refl, Option, none, some, List, [], ◌∷◌, ◌∙◌, ap, nat_eq,
  if◌then◌else◌, length, length-append, arith,
}
use mcp_go_sdk.Shared.Message.{Request}
use mcp_go_sdk.Server.{Server, ServerConfig}
use mcp_go_sdk.Server.Registration.{
  Change, change, adds_handler, new_server, notify, register_resource, unregister_resource,
  register_tool, unregister_tool, register_prompt, unregister_prompt, register_handler,
}
use mcp_go_sdk.Server.Handlers.{Params, handle_request}
use mcp_go_sdk.Server.Workers.{
  Workers, Event, arrives, takes, starts, finishes, registers, start, process_request,
  dispatch_take, dispatch_start, finish, advance, advances,
}

-- `most` is the limit that the server was made with.
pub record IsBounded {F : Type 0} (most : ℕ) (w : Workers F) : Type 0 where
  pub limit : w.server.max_concurrent_requests ≡ most
  pub workers : w.worker_pool + length w.active ≡ most
  pub queue : length w.request_chan ≤ most

module _ {F : Type 0} where
  change-limit :
      (c : Change F) (s : Server F)
      → (change c s).max_concurrent_requests ≡ s.max_concurrent_requests
  unfolding change notify register_resource unregister_resource register_tool unregister_tool
      register_prompt unregister_prompt register_handler
  change-limit (adds_handler method h) s = refl
  change-limit _ s = ground arith

  module _ (most : ℕ) where
    process_request-IsBounded :
        (r : Request F) (w : Workers F) → IsBounded most w → IsBounded most (process_request r w)
    unfolding process_request
    process_request-IsBounded r w v = ground (arith, length-append w.request_chan (r ∷ []))

    dispatch_take-IsBounded :
        (h : Option (Request F)) (q : List (Request F)) (w : Workers F)
        → w.request_chan ≡ q
        → IsBounded most w
        → IsBounded most (dispatch_take h q w)
    unfolding dispatch_take
    dispatch_take-IsBounded none (r ∷ rs) w e v = record {
      limit = v.limit;
      workers = v.workers;
      queue = omega (arith, v.queue, ap length e);
    }
    dispatch_take-IsBounded none [] w e v = v
    dispatch_take-IsBounded (some r) q w e v = v

    dispatch_start-IsBounded :
        (h : Option (Request F)) (n : ℕ) (w : Workers F)
        → w.worker_pool ≡ n
        → IsBounded most w
        → IsBounded most (dispatch_start h n w)
    unfolding dispatch_start
    dispatch_start-IsBounded (some r) (suc n) w e v = record {
      limit = v.limit;
      workers = omega (arith, v.workers, length-append w.active (r ∷ []));
      queue = v.queue;
    }
    dispatch_start-IsBounded (some r) zero w e v = v
    dispatch_start-IsBounded none n w e v = v

    finish-IsBounded :
        (codec : Params F) (w : Workers F) (q : Option (Request F × List (Request F)))
        → ((r : Request F × List (Request F)) → q ≡ some r → length w.active ≡ length r.1 + 1)
        → IsBounded most w
        → IsBounded most (finish codec q w)
    unfolding finish handle_request
    finish-IsBounded codec w none out v = v
    finish-IsBounded codec w (some r) out v = record {
      limit = v.limit;
      workers = omega (arith, v.workers, out r refl);
      queue = v.queue;
    }

    advance-IsBounded :
        (codec : Params F) (e : Event F) (w : Workers F)
        → IsBounded most w
        → IsBounded most (advance codec e w)
    unfolding advance
    advance-IsBounded codec (arrives r) w v = process_request-IsBounded r w v
    advance-IsBounded codec takes w v = dispatch_take-IsBounded w.held w.request_chan w refl v
    advance-IsBounded codec starts w v = dispatch_start-IsBounded w.held w.worker_pool w refl v
    advance-IsBounded codec (finishes i) w v =
        finish-IsBounded codec w (pick i w.active) (λ r e. length-pick i w.active r e) v
    advance-IsBounded codec (registers c) w v = record {
      limit = change-limit c w.server ∙ v.limit;
      workers = v.workers;
      queue = v.queue;
    }

    advances_from :
        (codec : Params F) (es : List (Event F)) (w : Workers F)
        → IsBounded most w
        → IsBounded most (advances codec es w)
    unfolding advances
    advances_from codec [] w v = v
    advances_from codec (e ∷ es) w v =
        advances_from codec es (advance codec e w) (advance-IsBounded codec e w v)

  -- Whatever arrives and however the goroutines interleave, the free workers and those at work make
  -- up the configured number (100 if none is configured), and no more requests than that are
  -- queued.
  pub advances-IsBounded :
      (codec : Params F) (config : ServerConfig) (es : List (Event F))
      → IsBounded
          (if nat_eq config.max_concurrent_requests 0 then 100 else config.max_concurrent_requests)
          (advances codec es (start config))
  unfolding start new_server
  advances-IsBounded codec config es =
      advances_from _ codec es (start config)
        (record { limit = refl; workers = omega arith; queue = omega arith })

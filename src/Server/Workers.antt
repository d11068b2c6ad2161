-- ===== src/Server/Workers.antt =====
-- server/server.go: the queue of requests, the dispatcher and the pool of workers. A run is a list
-- of events; the scheduler chooses which goroutine goes on, and `finishes i` lets the i-th of the
-- requests that are being handled end.
pub mod Conservation
pub mod Bounds
use mcp_go_sdk.Prelude.Choice.{pick}
use mcp_go_sdk.Prelude.{
  ℕ, zero, suc, ◌+◌, Bool, true, false, Option, none, some, List, [], ◌∷◌, ◌++◌, String,
  if◌then◌else◌, ltb, length,
}
use mcp_go_sdk.Value.{Value}
use mcp_go_sdk.Shared.Message.{Request, rpc_error, server_overloaded}
use mcp_go_sdk.Server.{Server, ServerConfig, error, response}
use mcp_go_sdk.Server.Registration.{Change, change, new_server}
use mcp_go_sdk.Server.Handlers.{Params, handle_request}

-- `held` is the request for which the dispatcher waits for a worker; `worker_pool` counts the
-- tokens of the free workers.
pub record Workers (F : Type 0) : Type 0 where
  pub server : Server F
  pub request_chan : List (Request F)
  pub held : Option (Request F)
  pub worker_pool : ℕ
  pub active : List (Request F)

pub data Event (F : Type 0) : Type 0 where
  arrives : Request F → Event F
  takes : Event F
  starts : Event F
  finishes : ℕ → Event F
  registers : Change F → Event F

module _ {F : Type 0} where
  unfoldable pub start : ServerConfig → Workers F
  start config =
      let s = new_server config in
      record {
        server = s;
        request_chan = [];
        held = none;
        worker_pool = s.max_concurrent_requests;
        active = [];
      }

  -- One round of processRequests
  unfoldable pub process_request : Request F → Workers F → Workers F
  process_request r w =
      let s = w.server in
      let overloaded = response r.id (error (rpc_error server_overloaded "Server overloaded")) in
      if ltb (length w.request_chan) s.max_concurrent_requests
      then record w { request_chan = w.request_chan ++ r ∷ [] }
      else record w { server = record s { sent = s.sent ++ overloaded ∷ [] } }

  -- dispatchRequests takes the next request,
  unfoldable pub dispatch_take : Option (Request F) → List (Request F) → Workers F → Workers F
  dispatch_take none (r ∷ rs) w = record w { request_chan = rs; held = some r }
  dispatch_take _ _ w = w

  -- and acquires a worker for it.
  unfoldable pub dispatch_start : Option (Request F) → ℕ → Workers F → Workers F
  dispatch_start (some r) (suc n) w = record w {
    held = none;
    worker_pool = n;
    active = w.active ++ r ∷ [];
  }
  dispatch_start _ _ w = w

  module _ (codec : Params F) where
    -- A worker ends: the response is sent and the worker goes back to the pool.
    unfoldable pub finish : Option (Request F × List (Request F)) → Workers F → Workers F
    finish none w = w
    finish (some (r, rest)) w = record w {
      server = handle_request codec r w.server;
      worker_pool = w.worker_pool + 1;
      active = rest;
    }

    unfoldable pub advance : Event F → Workers F → Workers F
    advance (arrives r) w = process_request r w
    advance takes w = dispatch_take w.held w.request_chan w
    advance starts w = dispatch_start w.held w.worker_pool w
    advance (finishes i) w = finish (pick i w.active) w
    advance (registers c) w = record w { server = change c w.server }

    unfoldable pub advances : List (Event F) → Workers F → Workers F
    advances [] w = w
    advances (e ∷ es) w = advances es (advance e w)

-- ===== src/Server/Resources/Steps.antt =====
-- server/registry.go: the operations of a ResourceRegistry as the steps of a run. The reads whose
-- handler runs are the list `active`, and `ends i` lets the i-th of them end.
use mcp_go_sdk.Prelude.{
  ℕ, ◌+◌, ◌≤◌, ◌≡◌, Bool, Option, none, some, List, [], ◌∷◌, ◌++◌, String, string_Key, length, All,
}
use mcp_go_sdk.Prelude.Dict.{Dict, lookup}
use mcp_go_sdk.Prelude.Choice.{pick}
use mcp_go_sdk.Server.Resources.{
  ResourceRegistry, ResourceEntry, ResourceEvent, Reader, Begun, reading, resources_register,
  resources_unregister, read_begin, read_end, subscribe, unsubscribe,
}

pub record Reads (W : Type 0) : Type 0 where
  pub registry : ResourceRegistry W
  pub active : List (String × ResourceEntry W)

pub data ResourceCall (W : Type 0) : Type 0 where
  registers : ℕ → String → String → String → Reader W → ResourceCall W
  unregisters : String → ResourceCall W
  begins : ℕ → String → Bool → ResourceCall W
  ends : ℕ → W → ℕ → ResourceCall W
  subscribes : String → ResourceCall W
  unsubscribes : String → ResourceCall W

-- No subscriber's channel holds more than its capacity.
abbrev pub IsBuffered : Dict String (List ResourceEvent) → Type 0
IsBuffered = All {A = String × List ResourceEvent} (λ s. length s.1 ≤ 10)

module _ {W : Type 0} where
  unfoldable pub begun : String → ResourceRegistry W × Begun W → Reads W → Reads W
  begun uri (rr, reading entry) st = record {
    registry = rr;
    active = st.active ++ (uri, entry) ∷ [];
  }
  begun uri (rr, _) st = record st { registry = rr }

  unfoldable pub ended :
      ℕ
      → W
      → Option ((String × ResourceEntry W) × List (String × ResourceEntry W))
      → Reads W
      → Reads W
  ended now world none st = st
  ended now world (some ((uri, entry), rest)) st = record {
    registry = (read_end now world uri entry st.registry).0;
    active = rest;
  }

  unfoldable pub resource_step : ResourceCall W → Reads W → Reads W
  unfolding begun ended
  resource_step (registers now uri name description handler) st = record st {
    registry = resources_register now uri name description handler st.registry;
  }
  resource_step (unregisters uri) st = record st {
    registry = (resources_unregister uri st.registry).0;
  }
  resource_step (begins now uri aborts) st = begun uri (read_begin now uri aborts st.registry) st
  resource_step (ends now world i) st = ended now world (pick i st.active) st
  resource_step (subscribes id) st = record st { registry = subscribe id st.registry }
  resource_step (unsubscribes id) st = record st { registry = unsubscribe id st.registry }

  unfoldable pub resource_run : List (ResourceCall W) → Reads W → Reads W
  resource_run [] st = st
  resource_run (c ∷ cs) st = resource_run cs (resource_step c st)

  -- The two maps hold the same handlers under the same uris.
  abbrev pub handler_of : Option (ResourceEntry W) → Option (Reader W)
  handler_of none = none
  handler_of (some entry) = some entry.handler

  abbrev pub IsPaired : Dict String (ResourceEntry W) → Dict String (Reader W) → Type 0
  IsPaired resources handlers =
      (uri : String) → lookup uri handlers ≡ handler_of (lookup uri resources)

  -- The free tokens and `busy` readers make up the configured number.
  abbrev pub IsKept : ℕ → ResourceRegistry W → Type 0
  IsKept busy rr =
      IsPaired rr.resources rr.handlers
      × IsBuffered rr.subscribers
      × (rr.worker_pool + busy ≡ rr.max_concurrent_reads)

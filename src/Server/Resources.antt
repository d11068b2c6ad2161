-- ===== src/Server/Resources.antt =====
-- server/registry.go: ResourceRegistry. A handler reads a part `W` of the world besides its uri.
-- Read runs its handler outside the lock, so it is two operations: `read_begin` up to the call of
-- the handler and `read_end` behind it. A goroutine that notifies the subscribers runs at once.
pub mod Caching
pub mod Steps
pub mod Upkeep
use mcp_go_sdk.Prelude.{
  ℕ, ◌+◌, ◌*◌, ◌-◌, Bool, true, false, Option, none, some, List, [], ◌∷◌, ◌++◌, String, string_Key,
  if◌then◌else◌, ltb, length, ◌==◌, nat_Key, map,
}
use mcp_go_sdk.Prelude.Dict.{Dict, lookup, insert, erase, values}
use mcp_go_sdk.Shared.Types.{Resource, Content}
use mcp_go_sdk.Server.{Handled, value, failed}

pub data ResourceEventType : Type 0 where
  event_added event_updated event_removed event_error : ResourceEventType

pub record ResourceEvent : Type 0 where
  pub event_type : ResourceEventType
  pub resource : Resource
  pub error : Option String

pub record CacheEntry : Type 0 where
  pub content : List Content
  pub timestamp : ℕ
  pub ttl : ℕ

abbrev pub Reader : Type 0 → Type 0
Reader W = W → String → Handled (List Content)

pub record ResourceEntry (W : Type 0) : Type 0 where
  pub resource : Resource
  pub handler : Reader W
  pub last_accessed : ℕ
  pub access_count : ℕ
  pub cache_entry : Option CacheEntry

-- A subscriber's channel is the list of the events in it; the worker pool counts its tokens.
pub record ResourceRegistry (W : Type 0) : Type 0 where
  pub resources : Dict String (ResourceEntry W)
  pub handlers : Dict String (Reader W)
  pub subscribers : Dict String (List ResourceEvent)
  pub max_concurrent_reads : ℕ
  pub cache_timeout : ℕ
  pub worker_pool : ℕ

-- How far a read comes before it calls the handler.
pub data Begun (W : Type 0) : Type 0 where
  not_found : Begun W
  cached : List Content → Begun W
  waits : Begun W
  cancelled : Begun W
  reading : ResourceEntry W → Begun W

pub record ResourceRegistryStats : Type 0 where
  pub total_resources : ℕ
  pub cached_resources : ℕ
  pub total_accesses : ℕ

-- `select { case eventChan <- event: default: }` on a channel of capacity 10
unfoldable pub offer_event : ResourceEvent → List ResourceEvent → List ResourceEvent
offer_event event chan = if ltb (length chan) 10 then chan ++ event ∷ [] else chan

unfoldable pub offer_all :
    ResourceEvent → Dict String (List ResourceEvent) → Dict String (List ResourceEvent)
unfolding offer_event
offer_all event [] = []
offer_all event ((id, chan) ∷ rest) = (id, offer_event event chan) ∷ offer_all event rest

-- `time.Since(entry.Timestamp) < entry.TTL`
unfoldable pub is_current : ℕ → CacheEntry → Bool
is_current now entry = ltb (now - entry.timestamp) entry.ttl

unfoldable pub current_content : ℕ → Option CacheEntry → Option (List Content)
unfolding is_current
current_content now none = none
current_content now (some entry) = if is_current now entry then some entry.content else none

module _ {W : Type 0} where
  unfoldable pub new_resource_registry : ℕ → ℕ → ResourceRegistry W
  new_resource_registry max_concurrent_reads cache_timeout =
      let readers = if max_concurrent_reads == 0 then 50 else max_concurrent_reads in
      record {
        resources = [];
        handlers = [];
        subscribers = [];
        max_concurrent_reads = readers;
        cache_timeout = if cache_timeout == 0 then 5 * 60 * 1_000_000_000 else cache_timeout;
        worker_pool = readers;
      }

  unfoldable pub notify_subscribers : ResourceEvent → ResourceRegistry W → ResourceRegistry W
  unfolding offer_all
  notify_subscribers event rr = record rr { subscribers = offer_all event rr.subscribers }

  unfoldable pub resources_register :
      ℕ → String → String → String → Reader W → ResourceRegistry W → ResourceRegistry W
  unfolding notify_subscribers
  resources_register now uri name description handler rr =
      let about : Resource = record {
        uri = uri;
        name = name;
        description = description;
        mime_type = "";
      } in
      let entry : ResourceEntry W = record {
        resource = about;
        handler = handler;
        last_accessed = now;
        access_count = 0;
        cache_entry = none;
      } in
      notify_subscribers (record { event_type = event_added; resource = about; error = none })
        (record rr {
          resources = insert uri entry rr.resources;
          handlers = insert uri handler rr.handlers;
        })

  -- The flag says that the resource was there: no error.
  unfoldable pub resources_unregister : String → ResourceRegistry W → ResourceRegistry W × Bool
  unfolding notify_subscribers
  resources_unregister uri rr = elim (lookup uri rr.resources) [
    | none ↦ (rr, false)
    | some entry ↦ (
      notify_subscribers
          (record { event_type = event_removed; resource = entry.resource; error = none })
          (record rr { resources = erase uri rr.resources; handlers = erase uri rr.handlers }),
      true,
    )
  ]

  unfoldable pub resources_list : ResourceRegistry W → List Resource
  resources_list rr = map (λ entry. entry.resource) (values rr.resources)

  unfoldable pub update_access_stats : ℕ → String → ResourceRegistry W → ResourceRegistry W
  update_access_stats now uri rr = elim (lookup uri rr.resources) [
    | none ↦ rr
    | some entry ↦ record rr {
      resources =
          insert uri (record entry { last_accessed = now; access_count = entry.access_count + 1 })
            rr.resources;
    }
  ]

  -- `aborts` says that the select takes the case of a context that has ended.
  unfoldable pub acquire_reader :
      Bool → ResourceEntry W → ResourceRegistry W → ResourceRegistry W × Begun W
  acquire_reader aborts entry rr =
      if aborts
      then (rr, cancelled)
      else if ltb 0 rr.worker_pool
      then (record rr { worker_pool = rr.worker_pool - 1 }, reading entry)
      else (rr, waits)

  unfoldable pub read_begin : ℕ → String → Bool → ResourceRegistry W → ResourceRegistry W × Begun W
  unfolding current_content update_access_stats acquire_reader
  read_begin now uri aborts rr = elim (lookup uri rr.resources) [
    | none ↦ (rr, not_found)
    | some entry ↦ elim (current_content now entry.cache_entry) [
      | some content ↦ (update_access_stats now uri rr, cached content)
      | none ↦ acquire_reader aborts entry rr
    ]
  ]

  unfoldable pub store_content : ℕ → String → List Content → ResourceRegistry W → ResourceRegistry W
  store_content now uri content rr = elim (lookup uri rr.resources) [
    | none ↦ rr
    | some entry ↦
        let stored : CacheEntry = record {
          content = content;
          timestamp = now;
          ttl = rr.cache_timeout;
        } in
        record rr {
          resources = insert uri (record entry { cache_entry = some stored }) rr.resources;
        }
  ]

  unfoldable pub settle_read :
      ℕ
      → String
      → ResourceEntry W
      → Handled (List Content)
      → ResourceRegistry W
      → ResourceRegistry W
  unfolding store_content update_access_stats notify_subscribers
  settle_read now uri entry (value content) rr =
      update_access_stats now uri (store_content now uri content rr)
  settle_read now uri entry (failed e) rr =
      notify_subscribers
        (record { event_type = event_error; resource = entry.resource; error = some e }) rr

  -- The handler has returned: its content is stored or its error announced, and the token goes back.
  unfoldable pub read_end :
      ℕ
      → W
      → String
      → ResourceEntry W
      → ResourceRegistry W
      → ResourceRegistry W × Handled (List Content)
  unfolding settle_read
  read_end now world uri entry rr =
      let outcome = entry.handler world uri in
      let settled = settle_read now uri entry outcome rr in
      (record settled { worker_pool = settled.worker_pool + 1 }, outcome)

  unfoldable pub subscribe : String → ResourceRegistry W → ResourceRegistry W
  subscribe id rr = record rr { subscribers = insert id [] rr.subscribers }

  unfoldable pub unsubscribe : String → ResourceRegistry W → ResourceRegistry W
  unsubscribe id rr = record rr { subscribers = erase id rr.subscribers }

unfoldable pub count_cached : {W : Type 0} → List (ResourceEntry W) → ℕ
count_cached [] = 0
count_cached (entry ∷ rest) = elim entry.cache_entry [
  | none ↦ count_cached rest
  | some c ↦ count_cached rest + 1
]

unfoldable pub sum_accesses : {W : Type 0} → List (ResourceEntry W) → ℕ
sum_accesses [] = 0
sum_accesses (entry ∷ rest) = sum_accesses rest + entry.access_count

unfoldable pub resources_get_stats : {W : Type 0} → ResourceRegistry W → ResourceRegistryStats
unfolding count_cached sum_accesses
resources_get_stats rr = record {
  total_resources = length (values rr.resources);
  cached_resources = count_cached (values rr.resources);
  total_accesses = sum_accesses (values rr.resources);
}

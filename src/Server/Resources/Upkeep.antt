-- ===== src/Server/Resources/Upkeep.antt =====
-- server/registry.go: what holds of a ResourceRegistry after any sequence of its operations.
use mcp_go_sdk.Prelude.{
  ℕ, ◌≤◌, ◌≡◌, refl, ap, ◌∙◌, Bool, some, List, [], ◌∷◌, String, string_Key, ltb, ltb→lt, arith,
  ◌==◌, eq_of_==, Option-cases, Bool-cases, inl, inr, length, length-append, if_elim, subst,
}
use mcp_go_sdk.Prelude.Dict.{Dict, lookup, insert, erase, lookup-insert, lookup-erase}
use mcp_go_sdk.Shared.Types.{Content}
use mcp_go_sdk.Server.{Handled, value, failed}
use mcp_go_sdk.Prelude.Choice.{pick, length-pick}
use mcp_go_sdk.Server.Resources.{
  ResourceRegistry, ResourceEntry, ResourceEvent, Reader, Begun, current_content, offer_event,
  offer_all, notify_subscribers, resources_register, resources_unregister, update_access_stats,
  acquire_reader, read_begin, store_content, settle_read, read_end, subscribe, unsubscribe,
  new_resource_registry,
}
use mcp_go_sdk.Server.Resources.Steps.{
  Reads, ResourceCall, registers, unregisters, begins, ends, subscribes, unsubscribes, begun, ended,
  resource_step, resource_run, IsBuffered, handler_of, IsPaired, IsKept,
}

offer_event-length :
    (event : ResourceEvent) (chan : List ResourceEvent)
    → length chan ≤ 10
    → length (offer_event event chan) ≤ 10
unfolding offer_event
offer_event-length event chan le =
    ground (arith, length-append chan (event ∷ []), ltb→lt (length chan) 10)

offer_all-All :
    (event : ResourceEvent) (subscribers : Dict String (List ResourceEvent))
    → IsBuffered subscribers
    → IsBuffered (offer_all event subscribers)
unfolding offer_all
offer_all-All event [] all = tt
offer_all-All event ((id, chan) ∷ rest) (le, all) =
    (offer_event-length event chan le, offer_all-All event rest all)

insert-All :
    (id : String) (subscribers : Dict String (List ResourceEvent))
    → IsBuffered subscribers
    → IsBuffered (insert id [] subscribers)
unfolding insert
insert-All id [] all = (omega arith, tt)
insert-All id ((k, chan) ∷ rest) (le, all) =
    if_elim (λ d. IsBuffered d) (k == id) _ _ (λ _. (omega arith, all))
      (λ _. (le, insert-All id rest all))

erase-All :
    (id : String) (subscribers : Dict String (List ResourceEvent))
    → IsBuffered subscribers
    → IsBuffered (erase id subscribers)
unfolding erase
erase-All id [] all = tt
erase-All id ((k, chan) ∷ rest) (le, all) =
    if_elim (λ d. IsBuffered d) (k == id) _ _ (λ _. erase-All id rest all)
      (λ _. (le, erase-All id rest all))

module _ {W : Type 0} where
  insert-IsPaired :
      (uri : String) (entry : ResourceEntry W) (resources : Dict String (ResourceEntry W))
      (handlers : Dict String (Reader W))
      → IsPaired resources handlers
      → IsPaired (insert uri entry resources) (insert uri entry.handler handlers)
  insert-IsPaired uri entry resources handlers paired u =
      rw (lookup-insert uri u entry.handler handlers, lookup-insert uri u entry resources)
        (elim (Bool-cases (uri == u)) [ inl hit ↦ rw hit refl | inr miss ↦ rw miss (paired u) ])

  erase-IsPaired :
      (uri : String) (resources : Dict String (ResourceEntry W)) (handlers : Dict String (Reader W))
      → IsPaired resources handlers
      → IsPaired (erase uri resources) (erase uri handlers)
  erase-IsPaired uri resources handlers paired u =
      rw (lookup-erase uri u handlers, lookup-erase uri u resources)
        (elim (Bool-cases (uri == u)) [ inl hit ↦ rw hit refl | inr miss ↦ rw miss (paired u) ])

  -- An entry is replaced by another with its handler.
  replace-IsPaired :
      (uri : String) (old new : ResourceEntry W) (resources : Dict String (ResourceEntry W))
      (handlers : Dict String (Reader W))
      → IsPaired resources handlers
      → lookup uri resources ≡ some old
      → old.handler ≡ new.handler
      → IsPaired (insert uri new resources) handlers
  replace-IsPaired uri old new resources handlers paired held same u =
      rw (lookup-insert uri u new resources) (elim (Bool-cases (uri == u)) [
        | inl hit ↦ rw hit (
            subst (λ k. lookup k handlers ≡ some new.handler) (eq_of_== uri u hit)
              (paired uri ∙ ap handler_of held ∙ ap some same))
        | inr miss ↦ rw miss (paired u)
      ])

  resources_register-IsKept :
      (now : ℕ) (uri name description : String) (handler : Reader W) (busy : ℕ)
      (rr : ResourceRegistry W)
      → IsKept busy rr
      → IsKept busy (resources_register now uri name description handler rr)
  unfolding resources_register notify_subscribers
  resources_register-IsKept now uri name description handler busy rr (paired, small, pool) = (
    insert-IsPaired uri _ rr.resources rr.handlers paired,
    offer_all-All _ rr.subscribers small,
    pool,
  )

  resources_unregister-IsKept :
      (uri : String) (busy : ℕ) (rr : ResourceRegistry W)
      → IsKept busy rr
      → IsKept busy (resources_unregister uri rr).0
  unfolding resources_unregister notify_subscribers
  resources_unregister-IsKept uri busy rr (paired, small, pool) =
      elim (Option-cases (lookup uri rr.resources)) [
        | inl gone ↦ rw (resources_unregister, gone) (paired, small, pool)
        | inr (entry, held) ↦
            rw (resources_unregister, held)
              (
                erase-IsPaired uri rr.resources rr.handlers paired,
                offer_all-All _ rr.subscribers small,
                pool,
              )
      ]

  update_access_stats-IsKept :
      (now : ℕ) (uri : String) (busy : ℕ) (rr : ResourceRegistry W)
      → IsKept busy rr
      → IsKept busy (update_access_stats now uri rr)
  unfolding update_access_stats
  update_access_stats-IsKept now uri busy rr (paired, small, pool) =
      elim (Option-cases (lookup uri rr.resources)) [
        | inl gone ↦ rw (update_access_stats, gone) (paired, small, pool)
        | inr (entry, held) ↦
            rw (update_access_stats, held)
              (replace-IsPaired uri entry _ rr.resources rr.handlers paired held refl, small, pool)
      ]

  store_content-IsKept :
      (now : ℕ) (uri : String) (content : List Content) (busy : ℕ) (rr : ResourceRegistry W)
      → IsKept busy rr
      → IsKept busy (store_content now uri content rr)
  unfolding store_content
  store_content-IsKept now uri content busy rr (paired, small, pool) =
      elim (Option-cases (lookup uri rr.resources)) [
        | inl gone ↦ rw (store_content, gone) (paired, small, pool)
        | inr (entry, held) ↦
            rw (store_content, held)
              (replace-IsPaired uri entry _ rr.resources rr.handlers paired held refl, small, pool)
      ]

  settle_read-IsKept :
      (now : ℕ) (uri : String) (entry : ResourceEntry W) (outcome : Handled (List Content))
      (busy : ℕ) (rr : ResourceRegistry W)
      → IsKept busy rr
      → IsKept busy (settle_read now uri entry outcome rr)
  unfolding settle_read notify_subscribers
  settle_read-IsKept now uri entry (value content) busy rr k =
      update_access_stats-IsKept now uri busy _ (store_content-IsKept now uri content busy rr k)
  settle_read-IsKept now uri entry (failed e) busy rr (paired, small, pool) =
      (paired, offer_all-All _ rr.subscribers small, pool)

  abbrev pub IsServed : Reads W → Type 0
  IsServed st = IsKept (length st.active) st.registry

  acquire_reader-IsServed :
      (uri : String) (aborts : Bool) (entry : ResourceEntry W) (st : Reads W)
      → IsServed st
      → IsServed (begun uri (acquire_reader aborts entry st.registry) st)
  unfolding acquire_reader begun
  acquire_reader-IsServed uri aborts entry st (paired, small, pool) =
      if_elim {A = ResourceRegistry W × Begun W} (λ r. IsServed (begun uri r st)) aborts _ _
        (λ _. (paired, small, pool))
        (λ _.
          if_elim {A = ResourceRegistry W × Begun W} (λ r. IsServed (begun uri r st))
            (ltb 0 st.registry.worker_pool) _ _
            (λ free.
              let positive = ltb→lt 0 st.registry.worker_pool free in
              (paired, small, omega (arith, length-append st.active ((uri, entry) ∷ []))))
            (λ _. (paired, small, pool)))

  begun-IsServed :
      (now : ℕ) (uri : String) (aborts : Bool) (st : Reads W)
      → IsServed st
      → IsServed (begun uri (read_begin now uri aborts st.registry) st)
  unfolding read_begin begun
  begun-IsServed now uri aborts st k = elim (Option-cases (lookup uri st.registry.resources)) [
    | inl gone ↦ rw (read_begin, gone) k
    | inr (entry, held) ↦ elim (Option-cases (current_content now entry.cache_entry)) [
      | inl stale ↦ rw (read_begin, held, stale) (acquire_reader-IsServed uri aborts entry st k)
      | inr (content, hit) ↦
          rw (read_begin, held, hit)
            (update_access_stats-IsKept now uri (length st.active) st.registry k)
    ]
  ]

  ended-IsServed :
      (now : ℕ) (world : W) (i : ℕ) (st : Reads W)
      → IsServed st
      → IsServed (ended now world (pick i st.active) st)
  unfolding ended read_end
  ended-IsServed now world i st k = elim (Option-cases (pick i st.active)) [
    | inl none_left ↦ rw none_left k
    | inr (((uri, entry), rest), found) ↦
        let (paired, small, pool) =
          settle_read-IsKept now uri entry (entry.handler world uri) (length st.active) st.registry
            k in
        rw found (paired, small, omega (arith, length-pick i st.active ((uri, entry), rest) found))
  ]

  resource_step-IsServed :
      (c : ResourceCall W) (st : Reads W) → IsServed st → IsServed (resource_step c st)
  unfolding resource_step subscribe unsubscribe
  resource_step-IsServed (registers now uri name description handler) st k =
      resources_register-IsKept now uri name description handler (length st.active) st.registry k
  resource_step-IsServed (unregisters uri) st k =
      resources_unregister-IsKept uri (length st.active) st.registry k
  resource_step-IsServed (begins now uri aborts) st k = begun-IsServed now uri aborts st k
  resource_step-IsServed (ends now world i) st k = ended-IsServed now world i st k
  resource_step-IsServed (subscribes id) st (paired, small, pool) =
      (paired, insert-All id st.registry.subscribers small, pool)
  resource_step-IsServed (unsubscribes id) st (paired, small, pool) =
      (paired, erase-All id st.registry.subscribers small, pool)

  resource_run-IsServed_from :
      (cs : List (ResourceCall W)) (st : Reads W) → IsServed st → IsServed (resource_run cs st)
  unfolding resource_run
  resource_run-IsServed_from [] st k = k
  resource_run-IsServed_from (c ∷ cs) st k =
      resource_run-IsServed_from cs (resource_step c st) (resource_step-IsServed c st k)

  -- After any sequence of registrations, removals, reads that begin and end, and subscriptions, a
  -- new registry holds under every uri the handler of its entry and nothing else, no subscriber's
  -- channel holds more than 10 events, and the free tokens and the running reads make up the
  -- configured number.
  pub resource_run-IsServed :
      (readers timeout : ℕ) (cs : List (ResourceCall W))
      → IsServed (
          resource_run cs
            (record { registry = new_resource_registry readers timeout; active = [] }))
  unfolding new_resource_registry lookup
  resource_run-IsServed readers timeout cs =
      resource_run-IsServed_from cs
        (record { registry = new_resource_registry readers timeout; active = [] })
        (λ uri. refl, tt, omega arith)

-- ===== src/Server/Resources/Caching.antt =====
-- server/registry.go: what ResourceRegistry.Read leaves in the cache, and who reads it.
use mcp_go_sdk.Prelude.{
  ℕ, ◌+◌, ◌-◌, ◌<◌, ◌≡◌, refl, sym, ap, subst, ◌∙◌, Bool, true, none, some, List, String,
  string_Key, ltb, arith, Option-cases, inl, inr,
}
use mcp_go_sdk.Prelude.Dict.{lookup, erase, lookup-insert_self, lookup-erase_self, erase_fresh}
use mcp_go_sdk.Shared.Types.{Content}
use mcp_go_sdk.Server.{Handled, value, failed}
use mcp_go_sdk.Server.Resources.{
  ResourceRegistry, ResourceEntry, Reader, CacheEntry, cached, not_found, is_current,
  current_content, read_begin, read_end, settle_read, store_content, update_access_stats,
  resources_register, resources_unregister, notify_subscribers,
}

lt→ltb : (a b : ℕ) → a < b → ltb a b ≡ true
lt→ltb a b h = ground arith

module _ {W : Type 0} where
  begin-cached :
      (later : ℕ) (uri : String) (aborts : Bool) (entry : ResourceEntry W) (stored : CacheEntry)
      (rr : ResourceRegistry W)
      → lookup uri rr.resources ≡ some entry
      → entry.cache_entry ≡ some stored
      → later - stored.timestamp < stored.ttl
      → read_begin later uri aborts rr ≡ (update_access_stats later uri rr, cached stored.content)
  unfolding read_begin current_content is_current
  begin-cached later uri aborts entry stored rr held has soon =
      rw (read_begin, held, has, current_content, is_current, lt→ltb _ _ soon) refl

  -- The entry of a resource that is registered when its content is stored.
  abbrev pub refreshed : ℕ → List Content → ResourceEntry W → ResourceRegistry W → ResourceEntry W
  refreshed now content entry rr = record entry {
    last_accessed = now;
    access_count = entry.access_count + 1;
    cache_entry = some (record { content = content; timestamp = now; ttl = rr.cache_timeout });
  }

  settled-entry :
      (now : ℕ) (uri : String) (content : List Content) (begun current : ResourceEntry W)
      (rr : ResourceRegistry W)
      → lookup uri rr.resources ≡ some current
      → lookup uri (settle_read now uri begun (value content) rr).resources
        ≡ some (refreshed now content current rr)
  unfolding settle_read
  settled-entry now uri content begun current rr held =
      rw
        (
          settle_read,
          store_content,
          held,
          update_access_stats,
          lookup-insert_self uri _ rr.resources,
        )
        (lookup-insert_self uri _ _)

  -- What a read's handler returned for a resource that is registered when it returns goes to the
  -- caller and into the cache: until the registry's timeout has passed, the next read of that uri
  -- returns the same content without a token and without the handler.
  pub read_end-read_begin :
      (now later : ℕ) (world : W) (uri : String) (aborts : Bool) (content : List Content)
      (begun current : ResourceEntry W) (rr : ResourceRegistry W)
      → lookup uri rr.resources ≡ some current
      → begun.handler world uri ≡ value content
      → later - now < rr.cache_timeout
      → let (g, outcome) = read_end now world uri begun rr in
        (outcome ≡ value content)
        × (read_begin later uri aborts g ≡ (update_access_stats later uri g, cached content))
  unfolding read_end
  read_end-read_begin now later world uri aborts content begun current rr held returned soon = (
    returned,
    begin-cached later uri aborts (refreshed now content current rr) _
        (read_end now world uri begun rr).0
        (subst
          (λ o.
            lookup uri (settle_read now uri begun o rr).resources
            ≡ some (refreshed now content current rr))
          (sym returned) (settled-entry now uri content begun current rr held))
        refl soon,
  )

  -- A resource that is registered again, with another handler, while its old handler runs: the old
  -- handler's content is stored in the new entry, and until the timeout has passed reads return it,
  -- whatever the new handler would return.
  pub stale_content :
      (start now later : ℕ) (world : W) (uri name description : String) (fresh : Reader W)
      (aborts : Bool) (content : List Content) (old : ResourceEntry W) (rr : ResourceRegistry W)
      → old.handler world uri ≡ value content
      → later - now < rr.cache_timeout
      → let (g, outcome) =
          read_end now world uri old (resources_register start uri name description fresh rr) in
        read_begin later uri aborts g ≡ (update_access_stats later uri g, cached content)
  unfolding resources_register notify_subscribers
  stale_content start now later world uri name description fresh aborts content old rr returned
        soon =
      (read_end-read_begin now later world uri aborts content old _
        (resources_register start uri name description fresh rr)
        (lookup-insert_self uri _ rr.resources) returned soon).1

  store_gone :
      (now : ℕ) (uri : String) (content : List Content) (rr : ResourceRegistry W)
      → lookup uri rr.resources ≡ none
      → store_content now uri content rr ≡ rr
  unfolding store_content
  store_gone now uri content rr gone = rw (store_content, gone) refl

  update_gone :
      (now : ℕ) (uri : String) (rr : ResourceRegistry W)
      → lookup uri rr.resources ≡ none
      → update_access_stats now uri rr ≡ rr
  unfolding update_access_stats
  update_gone now uri rr gone = rw (update_access_stats, gone) refl

  gone-settled :
      (now : ℕ) (uri : String) (begun : ResourceEntry W) (outcome : Handled (List Content))
      (rr : ResourceRegistry W)
      → lookup uri rr.resources ≡ none
      → (settle_read now uri begun outcome rr).resources ≡ rr.resources
  unfolding settle_read notify_subscribers
  gone-settled now uri begun (value content) rr gone =
      ap (λ g. (update_access_stats now uri g).resources) (store_gone now uri content rr gone)
      ∙ ap (λ g. g.resources) (update_gone now uri rr gone)
  gone-settled now uri begun (failed e) rr gone = refl

  unregister_erases :
      (uri : String) (rr : ResourceRegistry W)
      → (resources_unregister uri rr).0.resources ≡ erase uri rr.resources
  unfolding resources_unregister notify_subscribers
  unregister_erases uri rr = elim (Option-cases (lookup uri rr.resources)) [
    | inl gone ↦ rw (resources_unregister, gone) (sym (erase_fresh uri rr.resources gone))
    | inr (entry, held) ↦ rw (resources_unregister, held) refl
  ]

  begin-missing :
      (later : ℕ) (uri : String) (aborts : Bool) (rr : ResourceRegistry W)
      → lookup uri rr.resources ≡ none
      → read_begin later uri aborts rr ≡ (rr, not_found)
  unfolding read_begin
  begin-missing later uri aborts rr gone = rw (read_begin, gone) refl

  -- A resource that is unregistered while its handler runs stays unregistered: the read still
  -- returns what the handler returned, the registry lists what it listed, and the next read of the
  -- uri does not find it.
  pub read_end-resources_unregister :
      (now later : ℕ) (world : W) (uri : String) (aborts : Bool) (begun : ResourceEntry W)
      (rr : ResourceRegistry W)
      → let (g, existed) = resources_unregister uri rr in
        let (f, outcome) = read_end now world uri begun g in
        (outcome ≡ begun.handler world uri)
        × (f.resources ≡ erase uri rr.resources)
        × (read_begin later uri aborts f ≡ (f, not_found))
  unfolding read_end
  read_end-resources_unregister now later world uri aborts begun rr =
      let g = (resources_unregister uri rr).0 in
      let f = (read_end now world uri begun g).0 in
      let left : g.resources ≡ erase uri rr.resources = unregister_erases uri rr in
      let gone : lookup uri g.resources ≡ none =
        ap (lookup uri) left ∙ lookup-erase_self uri rr.resources in
      let same : f.resources ≡ g.resources =
        gone-settled now uri begun (begun.handler world uri) g gone in
      (refl, same ∙ left, begin-missing later uri aborts f (ap (lookup uri) same ∙ gone))

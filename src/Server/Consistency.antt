-- ===== src/Server/Consistency.antt =====
-- server/server.go: the maps of handlers and of metadata under registrations and removals.
use mcp_go_sdk.Prelude.{
  Bool, true, false, ◌≡◌, refl, sym, ◌∙◌, ap, Option, none, some, List, [], ◌∷◌, String, string_Key,
  inl, inr, if◌then◌else◌, is_some, ◌==◌, ◌||◌, if_elim, if_ap, In, eq_of_==, Bool-cases, arith,
}
use mcp_go_sdk.Prelude.Dict.{
  lookup, lookup-insert, lookup-erase, lookup-insert-some, lookup-erase-some, Distinct,
  insert-Distinct, erase-Distinct, In-lookup, values,
}
use mcp_go_sdk.Shared.Types.{Resource, Tool, Prompt}
use mcp_go_sdk.Server.{Server, ServerConfig, Table, ResourceHandler, ToolHandler, PromptHandler}
use mcp_go_sdk.Server.Registration.{
  new_server, add, has, remove, notify, register_resource, unregister_resource, register_tool,
  unregister_tool, register_prompt, unregister_prompt, register_handler, Change, adds_resource,
  removes_resource, adds_tool, removes_tool, adds_prompt, removes_prompt, adds_handler, change,
  changes,
}

-- A name has a handler exactly when it has metadata, the metadata carry that name, and no name
-- stands twice.
pub record IsPaired {H M : Type 0} (name_of : M → String) (t : Table H M) : Type 0 where
  pub paired : (k : String) → is_some (lookup k t.handlers) ≡ is_some (lookup k t.metadata)
  pub named : (k : String) (m : M) → lookup k t.metadata ≡ some m → name_of m ≡ k
  pub distinct : Distinct t.metadata

pub record ArePaired {F : Type 0} (rs : Table ResourceHandler Resource)
    (ts : Table (ToolHandler F) (Tool F)) (ps : Table (PromptHandler F) Prompt) : Type 0 where
  pub of_resources : IsPaired (λ (m : Resource). m.uri) rs
  pub of_tools : IsPaired (λ (m : Tool F). m.name) ts
  pub of_prompts : IsPaired (λ (m : Prompt). m.name) ps

abbrev pub IsConsistent : {F : Type 0} → Server F → Type 0
IsConsistent s = ArePaired s.resource_table s.tool_table s.prompt_table

module _ {H M : Type 0} (name_of : M → String) where
  add-IsPaired :
      (k : String) (h : H) (m : M) (t : Table H M)
      → name_of m ≡ k
      → IsPaired name_of t
      → IsPaired name_of (add k h m t)
  unfolding add
  add-IsPaired k h m t e v = record {
    paired = λ j.
        ground (arith, lookup-insert k j h t.handlers, lookup-insert k j m t.metadata, v.paired j);
    named = λ j n found. elim (lookup-insert-some k j m n t.metadata found) [
      | inl (same, new) ↦ ap name_of (sym new) ∙ e ∙ same
      | inr (ne, old) ↦ v.named j n old
    ];
    distinct = insert-Distinct k m t.metadata v.distinct;
  }

  remove-IsPaired :
      (k : String) (t : Table H M) → IsPaired name_of t → IsPaired name_of (remove k t)
  unfolding remove
  remove-IsPaired k t v = record {
    paired =
        λ j. ground (arith, lookup-erase k j t.handlers, lookup-erase k j t.metadata, v.paired j);
    named = λ j n found. v.named j n (lookup-erase-some k j n t.metadata found).1;
    distinct = erase-Distinct k t.metadata v.distinct;
  }

module _ {H M : Type 0} (name_of : M → String) where
  pub has_paired :
      (k : String) (t : Table H M) → IsPaired name_of t → has k t ≡ is_some (lookup k t.metadata)
  unfolding has
  has_paired k t v = ground (arith, v.paired k)

  pub listed_handler :
      (m : M) (t : Table H M)
      → IsPaired name_of t
      → In m (values t.metadata)
      → (h : H) × (lookup (name_of m) t.handlers ≡ some h)
  listed_handler m t v listed =
      let (k, found) = In-lookup m t.metadata v.distinct listed in
      let shown : is_some (lookup k t.handlers) ≡ true = v.paired k ∙ ap is_some found in
      handler_at k (v.named k m found) (lookup k t.handlers) refl shown
    where
      handler_at :
          (k : String)
          → name_of m ≡ k
          → (o : Option H) → lookup k t.handlers ≡ o
          → is_some o ≡ true
          → (h : H) × (lookup (name_of m) t.handlers ≡ some h)
      handler_at k same none e there = cc
      handler_at k same (some h) e there = (h, ap (λ j. lookup j t.handlers) same ∙ e)

abbrev pub pair : {S : Type 0} → S → Bool → S × Bool
pair s b = (s, b)

module _ {H M R : Type 0} where
  -- What a call that looks up `j` answers behind an addition, and behind a removal.
  pub add_reply :
      (f : Option H → R) (k j : String) (h : H) (m : M) (t : Table H M)
      → f (lookup j (add k h m t).handlers)
        ≡ (if k == j then f (some h) else f (lookup j t.handlers))
  unfolding add
  add_reply f k j h m t = ap f (lookup-insert k j h t.handlers) ∙ if_ap f (k == j) _ _

  pub remove_reply :
      (f : Option H → R) (k j : String) (t : Table H M)
      → f (lookup j (remove k t).handlers) ≡ (if k == j then f none else f (lookup j t.handlers))
  unfolding remove
  remove_reply f k j t = ap f (lookup-erase k j t.handlers) ∙ if_ap f (k == j) _ _

  pub absent_reply :
      (f : Option H → R) (k j : String) (t : Table H M)
      → has k t ≡ false
      → f (lookup j t.handlers) ≡ (if k == j then f none else f (lookup j t.handlers))
  unfolding has
  absent_reply f k j t gone = elim (Bool-cases (k == j)) [
    | inl hit ↦ rw (hit, ← eq_of_== k j hit) (ap f (absent (lookup k t.handlers) gone))
    | inr miss ↦ rw miss
  ]
    where
      absent : (o : Option H) → (is_some o || is_some (lookup k t.metadata)) ≡ false → o ≡ none
      absent none e = refl
      absent (some h) e = cc

module _ {H M R S : Type 0} (name_of : M → String) (call : S → R) (f : Option H → R) where
  -- A removal tells whether the name was listed. Behind it a call answers as if the name had no
  -- handler, and a call that looks up another name answers as before.
  pub removed_reply :
      (k j : String) (t : Table H M) (before after : S)
      → IsPaired name_of t
      → call before ≡ f (lookup j t.handlers)
      → call after ≡ f (lookup j (remove k t).handlers)
      → let r = (if has k t then pair after true else pair before false) in
        (r.1 ≡ is_some (lookup k t.metadata))
        × (call r.0 ≡ (if k == j then f none else call before))
  removed_reply k j t before after v was now =
      if_elim {A = S × Bool}
        (λ r.
          (r.1 ≡ is_some (lookup k t.metadata))
          × (call r.0 ≡ (if k == j then f none else call before)))
        (has k t) _ _
        (λ there.
          (sym there ∙ has_paired name_of k t v, now ∙ remove_reply f k j t ∙ ap other (sym was)))
        (λ gone. (
          sym gone ∙ has_paired name_of k t v,
          was ∙ absent_reply f k j t gone ∙ ap other (sym was),
        ))
    where
      other : R → R
      other r = if k == j then f none else r

module _ {F : Type 0} where
  new_server-IsConsistent : (config : ServerConfig) → IsConsistent (new_server {F = F} config)
  unfolding new_server lookup
  new_server-IsConsistent config = record {
    of_resources = empty;
    of_tools = empty;
    of_prompts = empty;
  }
    where
      empty :
          {H M : Type 0} {name_of : M → String}
          → IsPaired {H = H} name_of (record { handlers = []; metadata = [] })
      empty = record { paired = λ k. refl; named = λ k m e. cc; distinct = tt }

  change-IsConsistent : (c : Change F) (s : Server F) → IsConsistent s → IsConsistent (change c s)
  unfolding change notify register_resource register_tool register_prompt unregister_resource
      unregister_tool unregister_prompt register_handler
  change-IsConsistent (adds_resource uri name description h) s v = record {
    of_resources = add-IsPaired _ uri h _ s.resource_table refl v.of_resources;
    of_tools = v.of_tools;
    of_prompts = v.of_prompts;
  }
  change-IsConsistent (removes_resource uri) s v =
      if_elim {A = Server F × Bool} (λ r. IsConsistent r.0) (has uri s.resource_table) _ _
        (λ _. record {
          of_resources = remove-IsPaired _ uri s.resource_table v.of_resources;
          of_tools = v.of_tools;
          of_prompts = v.of_prompts;
        })
        (λ _. v)
  change-IsConsistent (adds_tool name description schema h) s v = record {
    of_resources = v.of_resources;
    of_tools = add-IsPaired _ name h _ s.tool_table refl v.of_tools;
    of_prompts = v.of_prompts;
  }
  change-IsConsistent (removes_tool name) s v =
      if_elim {A = Server F × Bool} (λ r. IsConsistent r.0) (has name s.tool_table) _ _
        (λ _. record {
          of_resources = v.of_resources;
          of_tools = remove-IsPaired _ name s.tool_table v.of_tools;
          of_prompts = v.of_prompts;
        })
        (λ _. v)
  change-IsConsistent (adds_prompt name description arguments h) s v = record {
    of_resources = v.of_resources;
    of_tools = v.of_tools;
    of_prompts = add-IsPaired _ name h _ s.prompt_table refl v.of_prompts;
  }
  change-IsConsistent (removes_prompt name) s v =
      if_elim {A = Server F × Bool} (λ r. IsConsistent r.0) (has name s.prompt_table) _ _
        (λ _. record {
          of_resources = v.of_resources;
          of_tools = v.of_tools;
          of_prompts = remove-IsPaired _ name s.prompt_table v.of_prompts;
        })
        (λ _. v)
  change-IsConsistent (adds_handler method h) s v = v

  changes_from :
      (cs : List (Change F)) (s : Server F) → IsConsistent s → IsConsistent (changes cs s)
  unfolding changes
  changes_from [] s v = v
  changes_from (c ∷ cs) s v = changes_from cs (change c s) (change-IsConsistent c s v)

  -- After any sequence of registrations and removals, a resource, tool or prompt has a handler
  -- exactly when it is listed, is listed under the name that calls it, and is listed once.
  pub changes-IsConsistent :
      (config : ServerConfig) (cs : List (Change F)) → IsConsistent (changes cs (new_server config))
  changes-IsConsistent config cs =
      changes_from cs (new_server config) (new_server-IsConsistent config)

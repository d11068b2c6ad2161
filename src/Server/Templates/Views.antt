-- ===== src/Server/Templates/Views.antt =====
-- server/resource_template.go: what an operation of the registry does to the names.
use mcp_go_sdk.Prelude.{
  ℕ, suc, ◌<◌, ◌≡◌, refl, sym, ap, ◌∙◌, Bool, true, false, Option, none, some, String, string_Key,
  nat_Key, ◌==◌, arith, if◌then◌else◌, is_some, Bool-cases, Option-cases, inl, inr, if_ap,
}
use mcp_go_sdk.Prelude.Dict.{lookup, insert, erase, lookup-insert, lookup-erase}
use mcp_go_sdk.Server.Templates.{
  TemplateRegistry, ResourceTemplate, ReadCallback, announce, at, register_template,
  unregister_template,
}
-- Calls by a user who makes a new template for every registration and updates by GetTemplate.
use mcp_go_sdk.Server.Templates.Runs.{
  registers, unregisters, allocate, run_op, shown, view, shown_register, table_op, IsKept,
}

pub fresh_same : (n : ℕ) → (n == n) ≡ true
fresh_same n = (nat_Key.same_iff n n).1 refl

pub fresh_other : (a n : ℕ) → a < n → (a == n) ≡ false
fresh_other a n old = ground (arith, nat_Key.same_iff a n)

pub same_branches : {A : Type 0} (b : Bool) (x : A) → (if b then x else x) ≡ x
same_branches true x = refl
same_branches false x = refl

module _ {F : Type 0} where
  shown-announce : (r : TemplateRegistry F) (o : Option ℕ) → shown (announce r) o ≡ shown r o
  unfolding announce
  shown-announce r none = refl
  shown-announce r (some a) = ground arith

  templates-announce : (r : TemplateRegistry F) → (announce r).templates ≡ r.templates
  unfolding announce
  templates-announce r = ground arith

  pub view-announce :
      (r : TemplateRegistry F) (other : String) → view (announce r) other ≡ view r other
  view-announce r other =
      ap (λ m. shown (announce r) (lookup other m)) (templates-announce r)
      ∙ shown-announce r (lookup other r.templates)

  -- A registration with its template at the next address
  abbrev pub added :
      String → ResourceTemplate F → ReadCallback → TemplateRegistry F → TemplateRegistry F
  added name t read r =
      let made = at r.fresh t r.objects r.fresh in
      record r {
        templates = insert name r.fresh r.templates;
        registrations =
            at r.fresh
              (record { template = r.fresh; read_callback = read; enabled = true; key = name })
              r.registrations;
        objects = at r.fresh (record made { name = name }) (at r.fresh t r.objects);
        fresh = suc r.fresh;
      }

  shown-added_old :
      (name : String) (t : ResourceTemplate F) (read : ReadCallback) (r : TemplateRegistry F)
      (a : ℕ)
      → a < r.fresh
      → (r.registrations a).template ≡ a
      → shown (added name t read r) (some a) ≡ shown r (some a)
  shown-added_old name t read r a old own =
      let differs = fresh_other a r.fresh old in rw (differs, own, differs) refl

  shown-added_new :
      (name : String) (t : ResourceTemplate F) (read : ReadCallback) (r : TemplateRegistry F)
      → shown (added name t read r) (some r.fresh) ≡ some (record t { name = name }, true)
  shown-added_new name t read r =
      let same = fresh_same r.fresh in
      let made = at r.fresh t r.objects in
      let new : ResourceTemplate F = record (made r.fresh) { name = name } in
      ap
        (λ b.
          let e =
            if b
            then record { template = r.fresh; read_callback = read; enabled = true; key = name }
            else r.registrations r.fresh in
          some (at r.fresh new made e.template, e.enabled))
        same
      ∙ ap (λ b. some (if b then new else made r.fresh, true)) same
      ∙ ap
          (λ b. let u = if b then t else r.objects r.fresh in some (record u { name = name }, true))
          same

  shown-allocate :
      (t : ResourceTemplate F) (r : TemplateRegistry F) (a : ℕ)
      → a < r.fresh
      → (r.registrations a).template ≡ a
      → shown (allocate t r) (some a) ≡ shown r (some a)
  shown-allocate t r a old own = let differs = fresh_other a r.fresh old in rw (own, differs) refl

  view-allocate :
      (t : ResourceTemplate F) (r : TemplateRegistry F) (other : String)
      → IsKept r
      → view (allocate t r) other ≡ view r other
  view-allocate t r other kept = elim (Option-cases (lookup other r.templates)) [
    | inl none_there ↦ rw none_there refl
    | inr (a, found) ↦
        let (old, key, own) = kept other a found in
        ap (shown (allocate t r)) found ∙ shown-allocate t r a old own ∙ ap (shown r) (sym found)
  ]

  view-added :
      (name : String) (t : ResourceTemplate F) (read : ReadCallback) (r : TemplateRegistry F)
      (other : String)
      → IsKept r
      → view (added name t read r) other
        ≡ (if name == other then some (record t { name = name }, true) else view r other)
  view-added name t read r other kept =
      ap (shown (added name t read r)) (lookup-insert name other r.fresh r.templates)
      ∙ elim (Bool-cases (name == other)) [
        | inl same ↦ rw same (shown-added_new name t read r)
        | inr differs ↦ rw differs (elim (Option-cases (lookup other r.templates)) [
          | inl none_there ↦ rw none_there refl
          | inr (a, found) ↦
              let (old, key, own) = kept other a found in
              ap (shown (added name t read r)) found
              ∙ shown-added_old name t read r a old own
              ∙ ap (shown r) (sym found)
        ])
      ]

  -- A test that picks the entry of a name, where that entry is known
  pub picked :
      (name other : String) (r : TemplateRegistry F) (o : Option ℕ)
      (new : Option (ResourceTemplate F × Bool) → Option (ResourceTemplate F × Bool))
      → lookup name r.templates ≡ o
      → (if name == other then new (shown r o) else view r other)
        ≡ (if name == other then new (view r other) else view r other)
  picked name other r o new e = elim (Bool-cases (name == other)) [
    | inl same ↦
        let here = ap (λ n. view r n) ((string_Key.same_iff name other).0 same) in
        ap (λ b. if b then new (shown r o) else view r other) same
        ∙ ap new (ap (shown r) (sym e) ∙ here)
        ∙ sym (ap (λ b. if b then new (view r other) else view r other) same)
    | inr differs ↦
        ap (λ b. if b then new (shown r o) else view r other) differs
        ∙ sym (ap (λ b. if b then new (view r other) else view r other) differs)
  ]

  pub registers-view :
      (name : String) (t : ResourceTemplate F) (read : ReadCallback) (r : TemplateRegistry F)
      (other : String)
      → IsKept r
      → view (run_op (registers name t read) r) other
        ≡ table_op (registers name t read) other (view r other)
  unfolding run_op register_template table_op
  registers-view name t read r other kept =
      let after : Option ℕ → TemplateRegistry F × Option ℕ = λ o.
        if is_some o
        then (allocate t r, none)
        else (announce (added name t read r), some r.fresh) in
      elim (Option-cases (lookup name r.templates)) [
        | inl missing ↦
            ap (λ o. view (after o).0 other) missing
            ∙ view-announce (added name t read r) other
            ∙ view-added name t read r other kept
            ∙ picked name other r none (shown_register t name) missing
        | inr (a, taken) ↦
            ap (λ o. view (after o).0 other) taken
            ∙ view-allocate t r other kept
            ∙ sym (same_branches (name == other) (view r other))
            ∙ sym (picked name other r (some a) (λ seen. seen) taken)
            ∙ picked name other r (some a) (shown_register t name) taken
      ]

  pub unregisters-view :
      (name : String) (r : TemplateRegistry F) (other : String)
      → view (run_op (unregisters name) r) other ≡ table_op (unregisters name) other (view r other)
  unfolding run_op unregister_template table_op
  unregisters-view name r other =
      view-announce (record r { templates = erase name r.templates }) other
      ∙ ap (shown r) (lookup-erase name other r.templates)
      ∙ if_ap (shown r) (name == other) none (lookup other r.templates)

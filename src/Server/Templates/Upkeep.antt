-- ===== src/Server/Templates/Upkeep.antt =====
-- server/resource_template.go: every operation keeps the registrations under their names.
use mcp_go_sdk.Prelude.{
  ℕ, suc, ◌<◌, ◌≡◌, sym, ap, ◌∙◌, true, Option, none, some, String, string_Key, nat_Key, ◌==◌,
  arith, if◌then◌else◌, is_some, Bool-cases, inl, inr, if_elim, subst,
}
use mcp_go_sdk.Prelude.Dict.{lookup, erase, lookup-insert-some, lookup-erase}
use mcp_go_sdk.Server.Templates.{
  TemplateRegistry, RegisteredTemplate, ResourceTemplate, TemplateUpdate, ReadCallback, announce,
  at, or_kept, register_template, unregister_template, update_template, get_template,
}
-- Calls by a user who makes a new template for every registration and updates by GetTemplate.
use mcp_go_sdk.Server.Templates.Runs.{
  TemplateOp, registers, unregisters, updates, update_at, run_op, IsKept,
}
use mcp_go_sdk.Server.Templates.Views.{added, fresh_same, fresh_other}
use mcp_go_sdk.Server.Templates.Updates.{updated}

module _ {F : Type 0} where
  announce-IsKept : (r : TemplateRegistry F) → IsKept r → IsKept (announce r)
  unfolding announce
  announce-IsKept r kept = if_elim IsKept r.has_callback _ r (λ e. kept) (λ e. kept)

  added-IsKept :
      (name : String) (t : ResourceTemplate F) (read : ReadCallback) (r : TemplateRegistry F)
      → IsKept r
      → IsKept (added name t read r)
  added-IsKept name t read r kept other a found =
      elim (lookup-insert-some name other r.fresh a r.templates found) [
        | inl (same, new) ↦ subst Own new (
          omega arith,
          ap (λ b. (if b then entry else r.registrations r.fresh).key) (fresh_same r.fresh) ∙ same,
          ap (λ b. (if b then entry else r.registrations r.fresh).template) (fresh_same r.fresh),
        )
        | inr (differs, there) ↦
            let (old, key, own) = kept other a there in
            let apart = fresh_other a r.fresh old in
            (
              omega (arith, old),
              ap (λ b. (if b then entry else r.registrations a).key) apart ∙ key,
              ap (λ b. (if b then entry else r.registrations a).template) apart ∙ own,
            )
      ]
    where
      entry : RegisteredTemplate
      entry = record { template = r.fresh; read_callback = read; enabled = true; key = name }

      Own : ℕ → Type 0
      Own b =
          (b < suc r.fresh)
          × ((at r.fresh entry r.registrations b).key ≡ other)
          × ((at r.fresh entry r.registrations b).template ≡ b)

  updated-IsKept :
      (a : ℕ) (u : TemplateUpdate F) (r : TemplateRegistry F) → IsKept r → IsKept (updated a u r)
  updated-IsKept a u r kept other b found =
      let (old, key, own) = kept other b found in
      let e = r.registrations a in
      let changed : RegisteredTemplate = record e {
        enabled = or_kept u.enabled e.enabled;
        read_callback = or_kept u.read_callback e.read_callback;
      } in
      elim (Bool-cases (b == a)) [
        | inl same ↦
            let back = sym ((nat_Key.same_iff b a).0 same) in
            (
              old,
              ap (λ c. (if c then changed else r.registrations b).key) same
                  ∙ ap (λ c. (r.registrations c).key) back
                  ∙ key,
              ap (λ c. (if c then changed else r.registrations b).template) same
                  ∙ ap (λ c. (r.registrations c).template) back
                  ∙ own,
            )
        | inr apart ↦ (
          old,
          ap (λ c. (if c then changed else r.registrations b).key) apart ∙ key,
          ap (λ c. (if c then changed else r.registrations b).template) apart ∙ own,
        )
      ]

  pub run_op-IsKept : (op : TemplateOp F) (r : TemplateRegistry F) → IsKept r → IsKept (run_op op r)
  unfolding run_op register_template unregister_template get_template update_template
  run_op-IsKept (registers name t read) r kept =
      if_elim {A = TemplateRegistry F × Option ℕ} (λ p. IsKept p.0)
        (is_some (lookup name r.templates)) _ _ (λ e. kept)
        (λ e. announce-IsKept (added name t read r) (added-IsKept name t read r kept))
  run_op-IsKept (unregisters name) r kept =
      announce-IsKept (record r { templates = erase name r.templates })
        (λ other a found. kept other a (ground (arith, lookup-erase name other r.templates)))
  run_op-IsKept (updates name u) r kept =
      elim (lookup name r.templates) as (λ o. IsKept (update_at o u r)) [
        | none ↦ kept
        | some a ↦ announce-IsKept (updated a u r) (updated-IsKept a u r kept)
      ]

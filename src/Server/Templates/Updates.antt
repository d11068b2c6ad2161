-- ===== src/Server/Templates/Updates.antt =====
-- server/resource_template.go: Update through GetTemplate.
use mcp_go_sdk.Prelude.{
  ℕ, ◌≡◌, refl, sym, ap, ◌∙◌, false, none, some, String, string_Key, nat_Key, ◌==◌, arith,
  if◌then◌else◌, Bool-cases, Option-cases, inl, inr,
}
use mcp_go_sdk.Prelude.Dict.{lookup}
use mcp_go_sdk.Server.Templates.{
  TemplateRegistry, RegisteredTemplate, TemplateUpdate, at, or_kept, update_template,
  updated_template, get_template,
}
-- Calls by a user who makes a new template for every registration and updates by GetTemplate.
use mcp_go_sdk.Server.Templates.Runs.{
  updates, update_at, run_op, shown, view, shown_update, table_op, IsKept,
}
use mcp_go_sdk.Server.Templates.Views.{fresh_same, picked, view-announce, same_branches}

module _ {F : Type 0} where
  abbrev pub updated : ℕ → TemplateUpdate F → TemplateRegistry F → TemplateRegistry F
  updated a u r =
      let e = r.registrations a in
      record r {
        registrations =
            at a
              (record e {
                enabled = or_kept u.enabled e.enabled;
                read_callback = or_kept u.read_callback e.read_callback;
              })
              r.registrations;
        objects = at e.template (updated_template u (r.objects e.template)) r.objects;
      }

  shown-updated_self :
      (a : ℕ) (u : TemplateUpdate F) (r : TemplateRegistry F)
      → shown (updated a u r) (some a) ≡ shown_update u (shown r (some a))
  shown-updated_self a u r =
      let e = r.registrations a in
      let changed : RegisteredTemplate = record e {
        enabled = or_kept u.enabled e.enabled;
        read_callback = or_kept u.read_callback e.read_callback;
      } in
      let new = updated_template u (r.objects e.template) in
      ap
        (λ b.
          let f : RegisteredTemplate = if b then changed else e in
          some (at e.template new r.objects f.template, f.enabled))
        (fresh_same a)
      ∙ ap (λ b. some (if b then new else r.objects e.template, or_kept u.enabled e.enabled))
          (fresh_same e.template)

  shown-updated_other :
      (a b : ℕ) (u : TemplateUpdate F) (r : TemplateRegistry F)
      → (b == a) ≡ false
      → (r.registrations a).template ≡ a
      → (r.registrations b).template ≡ b
      → shown (updated a u r) (some b) ≡ shown r (some b)
  shown-updated_other a b u r differs own other_own = rw (differs, own, other_own, differs) refl

  kept_apart :
      (name other : String) (a b : ℕ) (r : TemplateRegistry F)
      → IsKept r
      → (name == other) ≡ false
      → lookup name r.templates ≡ some a
      → lookup other r.templates ≡ some b
      → (b == a) ≡ false
  kept_apart name other a b r kept differs found found_other =
      let (_, key, _) = kept name a found in
      let (_, other_key, _) = kept other b found_other in
      elim (Bool-cases (b == a)) [
        | inr apart ↦ apart
        | inl equal ↦
            let same : name ≡ other =
              sym key
              ∙ ap (λ c. (r.registrations c).key) (sym ((nat_Key.same_iff b a).0 equal))
              ∙ other_key in
            ground (arith, string_Key.same_iff name other)
      ]

  view-updated :
      (name other : String) (a : ℕ) (u : TemplateUpdate F) (r : TemplateRegistry F)
      → IsKept r
      → lookup name r.templates ≡ some a
      → view (updated a u r) other
        ≡ (if name == other then shown_update u (shown r (some a)) else view r other)
  view-updated name other a u r kept found = elim (Bool-cases (name == other)) [
    | inl same ↦
        let here =
          ap (λ n. lookup n r.templates) (sym ((string_Key.same_iff name other).0 same)) ∙ found in
        ap (shown (updated a u r)) here
        ∙ shown-updated_self a u r
        ∙ sym (ap (λ b. if b then shown_update u (shown r (some a)) else view r other) same)
    | inr differs ↦
        elim (Option-cases (lookup other r.templates)) [
          | inl missing ↦ ap (shown (updated a u r)) missing ∙ ap (shown r) (sym missing)
          | inr (b, there) ↦
              ap (shown (updated a u r)) there
              ∙ shown-updated_other a b u r (kept_apart name other a b r kept differs found there)
                  ((kept name a found).2) ((kept other b there).2)
              ∙ ap (shown r) (sym there)
        ]
        ∙ sym (ap (λ b. if b then shown_update u (shown r (some a)) else view r other) differs)
  ]

  pub updates-view :
      (name : String) (u : TemplateUpdate F) (r : TemplateRegistry F) (other : String)
      → IsKept r
      → view (run_op (updates name u) r) other ≡ table_op (updates name u) other (view r other)
  unfolding run_op get_template update_template table_op
  updates-view name u r other kept = elim (Option-cases (lookup name r.templates)) [
    | inl missing ↦
        ap (λ o. view (update_at o u r) other) missing
        ∙ sym (same_branches (name == other) (view r other))
        ∙ sym (picked name other r none (λ seen. seen) missing)
        ∙ picked name other r none (shown_update u) missing
    | inr (a, found) ↦
        ap (λ o. view (update_at o u r) other) found
        ∙ view-announce (updated a u r) other
        ∙ view-updated name other a u r kept found
        ∙ picked name other r (some a) (shown_update u) found
  ]

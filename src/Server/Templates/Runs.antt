-- ===== src/Server/Templates/Runs.antt =====
-- server/resource_template.go: the registry against a table of names.
use mcp_go_sdk.Prelude.{
  ℕ, ◌<◌, ◌≡◌, Bool, true, Option, none, some, List, [], ◌∷◌, String, string_Key, nat_Key, ◌==◌,
  if◌then◌else◌,
}
use mcp_go_sdk.Prelude.Dict.{lookup}
use mcp_go_sdk.Server.Templates.{
  TemplateRegistry, ResourceTemplate, TemplateUpdate, ReadCallback, at, or_kept, register_template,
  unregister_template, update_template, updated_template, get_template,
}

-- Calls by a user who makes a new template for every registration and updates by GetTemplate.
pub data TemplateOp (F : Type 0) : Type 0 where
  registers : String → ResourceTemplate F → ReadCallback → TemplateOp F
  unregisters : String → TemplateOp F
  updates : String → TemplateUpdate F → TemplateOp F

module _ {F : Type 0} where
  -- The new template, at an address that is in no use
  abbrev pub allocate : ResourceTemplate F → TemplateRegistry F → TemplateRegistry F
  allocate t r = record r { objects = at r.fresh t r.objects }

  abbrev pub update_at : Option ℕ → TemplateUpdate F → TemplateRegistry F → TemplateRegistry F
  update_at none u r = r
  update_at (some a) u r = update_template a u r

  unfoldable pub run_op : TemplateOp F → TemplateRegistry F → TemplateRegistry F
  unfolding register_template unregister_template update_template get_template
  run_op (registers name t read) r = (register_template name r.fresh read (allocate t r)).0
  run_op (unregisters name) r = unregister_template name r
  run_op (updates name u) r = update_at (get_template name r) u r

  -- What a name stands for: its template and whether it is enabled
  abbrev pub shown : TemplateRegistry F → Option ℕ → Option (ResourceTemplate F × Bool)
  shown r none = none
  shown r (some a) = some (r.objects (r.registrations a).template, (r.registrations a).enabled)

  abbrev pub view : TemplateRegistry F → String → Option (ResourceTemplate F × Bool)
  view r name = shown r (lookup name r.templates)

  abbrev pub shown_update :
      TemplateUpdate F → Option (ResourceTemplate F × Bool) → Option (ResourceTemplate F × Bool)
  shown_update u none = none
  shown_update u (some (t, enabled)) = some (updated_template u t, or_kept u.enabled enabled)

  abbrev pub shown_register :
      ResourceTemplate F
      → String
      → Option (ResourceTemplate F × Bool)
      → Option (ResourceTemplate F × Bool)
  shown_register t name none = some (record t { name = name }, true)
  shown_register t name (some old) = some old

  -- The table: a name that is taken is not registered again.
  unfoldable pub table_op :
      TemplateOp F
      → String
      → Option (ResourceTemplate F × Bool)
      → Option (ResourceTemplate F × Bool)
  table_op (registers name t read) other seen =
      if name == other then shown_register t name seen else seen
  table_op (unregisters name) other seen = if name == other then none else seen
  table_op (updates name u) other seen = if name == other then shown_update u seen else seen

  abbrev pub IsKept : TemplateRegistry F → Type 0
  IsKept r =
      (name : String) (a : ℕ)
      → lookup name r.templates ≡ some a
      → (a < r.fresh) × ((r.registrations a).key ≡ name) × ((r.registrations a).template ≡ a)

  unfoldable pub run_ops : List (TemplateOp F) → TemplateRegistry F → TemplateRegistry F
  unfolding run_op
  run_ops [] r = r
  run_ops (op ∷ rest) r = run_ops rest (run_op op r)

  unfoldable pub table_ops :
      List (TemplateOp F)
      → String
      → Option (ResourceTemplate F × Bool)
      → Option (ResourceTemplate F × Bool)
  unfolding table_op
  table_ops [] other seen = seen
  table_ops (op ∷ rest) other seen = table_ops rest other (table_op op other seen)

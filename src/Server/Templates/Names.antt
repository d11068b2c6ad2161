-- ===== src/Server/Templates/Names.antt =====
-- server/resource_template.go: the registry is a table of names.
use mcp_go_sdk.Prelude.{◌≡◌, refl, ap, ◌∙◌, none, List, [], ◌∷◌, String, string_Key, nat_Key, arith}
use mcp_go_sdk.Prelude.Dict.{lookup}
use mcp_go_sdk.Server.Templates.{TemplateRegistry, new_template_registry}
-- Calls by a user who makes a new template for every registration and updates by GetTemplate.
use mcp_go_sdk.Server.Templates.Runs.{
  TemplateOp, registers, unregisters, updates, run_op, view, table_op, IsKept, run_ops, table_ops,
}
use mcp_go_sdk.Server.Templates.Views.{registers-view, unregisters-view}
use mcp_go_sdk.Server.Templates.Updates.{updates-view}
use mcp_go_sdk.Server.Templates.Upkeep.{run_op-IsKept}

module _ {F : Type 0} where
  view-run_ops :
      (ops : List (TemplateOp F)) (r : TemplateRegistry F) (other : String)
      → IsKept r
      → view (run_ops ops r) other ≡ table_ops ops other (view r other)
  unfolding run_ops table_ops
  view-run_ops [] r other kept = refl
  view-run_ops (op ∷ rest) r other kept =
      view-run_ops rest (run_op op r) other (run_op-IsKept op r kept)
      ∙ ap (table_ops rest other) (one op)
    where
      one : (op : TemplateOp F) → view (run_op op r) other ≡ table_op op other (view r other)
      one (registers name t read) = registers-view name t read r other kept
      one (unregisters name) = unregisters-view name r other
      one (updates name u) = updates-view name u r other kept

  -- After any sequence of registrations, unregistrations and updates through GetTemplate on a new
  -- registry, where each registration is of a new template, a name stands for the template and the
  -- state that a table of names has for it: the first registration of a free name, with the updates
  -- since then, until the name is unregistered.
  pub names_as_in_table :
      (ops : List (TemplateOp F)) (name : String)
      → view (run_ops ops new_template_registry) name ≡ table_ops ops name none
  unfolding new_template_registry lookup
  names_as_in_table ops name =
      view-run_ops ops new_template_registry name (λ other a found. ground arith)

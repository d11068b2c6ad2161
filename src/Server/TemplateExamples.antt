-- ===== src/Server/TemplateExamples.antt =====
-- Instances for the checks of URI templates and their registry. A float64 is a number here.
use mcp_go_sdk.Prelude.{ℕ, List, ◌∷◌, false, ◌≡◌, ◌≢◌, ◌↔◌, refl, none, some, []}
use mcp_go_sdk.Shared.Text.{codes}
use mcp_go_sdk.Server.ResourceTemplate.{
  validate_uri_template, check_braces, expressions_in, check_names, is_identifier, all_word,
  invalid_name,
}
use mcp_go_sdk.Server.ResourceTemplate.Grammar.{Grammar, validate_uri_template_iff}
use mcp_go_sdk.Server.{failed}
use mcp_go_sdk.Server.Templates.{
  ResourceTemplate, ReadCallback, no_template, no_update, new_template_registry, updated_template,
}
use mcp_go_sdk.Server.Templates.Runs.{
  TemplateOp, registers, updates, view, run_ops, table_ops, table_op,
}
use mcp_go_sdk.Server.Templates.Names.{names_as_in_table}

validate_uri_template_iff_example :
    (validate_uri_template (codes "/a/{x}{?q}") ≡ none)
    ↔ ((codes "/a/{x}{?q}" ≢ []) × Grammar (codes "/a/{x}{?q}"))
validate_uri_template_iff_example = validate_uri_template_iff (codes "/a/{x}{?q}")

accepted_plain : validate_uri_template (codes "/a/{x}{?q}") ≡ none
unfolding validate_uri_template check_braces expressions_in check_names is_identifier all_word
accepted_plain = refl

refused_star : validate_uri_template (codes "{x*}") ≡ some (invalid_name (codes "x*"))
unfolding validate_uri_template check_braces expressions_in check_names is_identifier all_word
refused_star = refl

abbrev files : ResourceTemplate ℕ
files = record no_template { uri_template = "file:///{name}"; description = "Files" }

abbrev reads_nothing : ReadCallback
reads_nothing uri = failed "no file"

abbrev registered_twice : List (TemplateOp ℕ)
registered_twice =
    registers "files" files reads_nothing
    ∷ registers "files" no_template reads_nothing
    ∷ updates "files" (record no_update { enabled = some false })
    ∷ []

names_as_in_table_example :
    view (run_ops registered_twice new_template_registry) "files"
    ≡ some (record files { name = "files" }, false)
unfolding table_ops table_op updated_template
names_as_in_table_example = names_as_in_table registered_twice "files"

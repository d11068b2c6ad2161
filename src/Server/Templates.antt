-- ===== src/Server/Templates.antt =====
-- server/resource_template.go: the registry of resource templates. A template and a registration are
-- shared by pointer, so they live at addresses; a callback of the user is a function, and `changes`
-- counts the calls of the one for changes, which run while the registry's lock is held.
pub mod Runs
pub mod Views
pub mod Updates
pub mod Upkeep
pub mod Names
use mcp_go_sdk.Prelude.{
  ℕ, suc, ◌+◌, Bool, true, false, ◌&&◌, not, Option, none, some, List, [], ◌∷◌, ◌++◌, String,
  string_Key, nat_Key, ◌==◌, if◌then◌else◌, map, is_some,
}
use Prim.Native.String.{◌++◌ as str_append}
use mcp_go_sdk.Prelude.Dict.{Dict, lookup, insert, erase, values}
use mcp_go_sdk.Value.{Fields}
use mcp_go_sdk.Shared.Types.{Resource, ResourceContent}
use mcp_go_sdk.Server.{Handled, value, failed}

abbrev pub ListCallback : Type 0
ListCallback = Handled (List Resource)

abbrev pub CompleteCallback : Type 0 → Type 0
CompleteCallback F = String → Fields F → Handled (List String)

abbrev pub ReadCallback : Type 0
ReadCallback = String → Handled (List ResourceContent)

-- A nil callback or map is `none`.
pub record ResourceTemplate (F : Type 0) : Type 0 where
  pub uri_template : String
  pub description : String
  pub mime_type : String
  pub name : String
  pub list_callback : Option ListCallback
  pub complete_callbacks : Option (Dict String (CompleteCallback F))

-- `template` is an address; `key` is the name that the function behind Remove captured.
pub record RegisteredTemplate : Type 0 where
  pub template : ℕ
  pub read_callback : ReadCallback
  pub enabled : Bool
  pub key : String

pub record TemplateUpdate (F : Type 0) : Type 0 where
  pub description : Option String
  pub mime_type : Option String
  pub enabled : Option Bool
  pub read_callback : Option ReadCallback
  pub list_callback : Option ListCallback
  pub complete_callbacks : Option (Dict String (CompleteCallback F))

pub record TemplateRegistry (F : Type 0) : Type 0 where
  pub templates : Dict String ℕ
  pub registrations : ℕ → RegisteredTemplate
  pub objects : ℕ → ResourceTemplate F
  pub fresh : ℕ
  pub has_callback : Bool
  pub changes : ℕ

abbrev pub or_kept {ℓ} : {A : Type ℓ} → Option A → A → A
or_kept none kept = kept
or_kept (some new) kept = new

abbrev pub or_nil {ℓ} : {A : Type ℓ} → Option A → Option A → Option A
or_nil none kept = kept
or_nil (some new) kept = some new

abbrev pub at {ℓ} : {A : Type ℓ} → ℕ → A → (ℕ → A) → ℕ → A
at a new cells b = if b == a then new else cells b

abbrev pub or_default : String → String → String
or_default given default = if given == "" then default else given

module _ {F : Type 0} where
  abbrev pub no_template : ResourceTemplate F
  no_template = record {
    uri_template = "";
    description = "";
    mime_type = "";
    name = "";
    list_callback = none;
    complete_callbacks = none;
  }

  unfoldable pub new_template_registry : TemplateRegistry F
  new_template_registry = record {
    templates = [];
    registrations =
        λ a. record { template = 0; read_callback = λ uri. failed ""; enabled = false; key = "" };
    objects = λ a. no_template;
    fresh = 0;
    has_callback = false;
    changes = 0;
  }

  unfoldable pub set_changed_callback : TemplateRegistry F → TemplateRegistry F
  set_changed_callback r = record r { has_callback = true }

  unfoldable pub announce : TemplateRegistry F → TemplateRegistry F
  announce r = if r.has_callback then record r { changes = r.changes + 1 } else r

  -- RegisterTemplate of the template at an address: the handle, or none if the name is taken
  unfoldable pub register_template :
      String → ℕ → ReadCallback → TemplateRegistry F → TemplateRegistry F × Option ℕ
  unfolding announce
  register_template name object read r =
      let t = r.objects object in
      if is_some (lookup name r.templates) then (r, none) else (
        announce (record r {
          templates = insert name r.fresh r.templates;
          registrations =
              at r.fresh
                (record { template = object; read_callback = read; enabled = true; key = name })
                r.registrations;
          objects = at object (record t { name = name }) r.objects;
          fresh = suc r.fresh;
        }),
        some r.fresh,
      )

  unfoldable pub unregister_template : String → TemplateRegistry F → TemplateRegistry F
  unfolding announce
  unregister_template name r = announce (record r { templates = erase name r.templates })

  unfoldable pub get_template : String → TemplateRegistry F → Option ℕ
  get_template name r = lookup name r.templates

  -- What Update does to the template
  unfoldable pub updated_template : TemplateUpdate F → ResourceTemplate F → ResourceTemplate F
  updated_template u t = record t {
    description = or_kept u.description t.description;
    mime_type = or_kept u.mime_type t.mime_type;
    list_callback = or_nil u.list_callback t.list_callback;
    complete_callbacks = or_nil u.complete_callbacks t.complete_callbacks;
  }

  -- Update of the registration at an address, on the list or not
  unfoldable pub update_template : ℕ → TemplateUpdate F → TemplateRegistry F → TemplateRegistry F
  unfolding announce updated_template
  update_template a u r =
      let e = r.registrations a in
      announce (record r {
        registrations =
            at a
              (record e {
                enabled = or_kept u.enabled e.enabled;
                read_callback = or_kept u.read_callback e.read_callback;
              })
              r.registrations;
        objects = at e.template (updated_template u (r.objects e.template)) r.objects;
      })

  abbrev pub no_update : TemplateUpdate F
  no_update = record {
    description = none;
    mime_type = none;
    enabled = none;
    read_callback = none;
    list_callback = none;
    complete_callbacks = none;
  }

  -- Enable and Disable
  unfoldable pub set_enabled : Bool → ℕ → TemplateRegistry F → TemplateRegistry F
  unfolding update_template
  set_enabled enabled a r = update_template a (record no_update { enabled = some enabled }) r

  -- Remove, which goes by the name
  unfoldable pub remove_template : ℕ → TemplateRegistry F → TemplateRegistry F
  unfolding unregister_template
  remove_template a r = unregister_template (r.registrations a).key r

  -- The registrations that are enabled
  unfoldable pub enabled_only : TemplateRegistry F → List ℕ → List ℕ
  enabled_only r [] = []
  enabled_only r (a ∷ rest) =
      let others = enabled_only r rest in if (r.registrations a).enabled then a ∷ others else others

  unfoldable pub list_templates : TemplateRegistry F → List (ResourceTemplate F)
  unfolding enabled_only
  list_templates r =
      map (λ a. r.objects (r.registrations a).template) (enabled_only r (values r.templates))

  abbrev pub with_defaults : ResourceTemplate F → Resource → Resource
  with_defaults t resource = record resource {
    description = or_default resource.description t.description;
    mime_type = or_default resource.mime_type t.mime_type;
  }

  -- The loop of ListResources: the first error of a callback ends it.
  unfoldable pub list_all : List (ResourceTemplate F) → Handled (List Resource)
  list_all [] = value []
  list_all (t ∷ rest) = elim t.list_callback [
    | none ↦ list_all rest
    | some listed ↦ elim listed [
      | failed problem ↦ failed (
          str_append "error listing resources for template "
            (str_append t.name (str_append ": " problem)))
      | value resources ↦ elim (list_all rest) [
        | failed problem ↦ failed problem
        | value others ↦ value (map (with_defaults t) resources ++ others)
      ]
    ]
  ]

  unfoldable pub list_template_resources : TemplateRegistry F → Handled (List Resource)
  unfolding list_templates list_all
  list_template_resources r = list_all (list_templates r)

  unfoldable pub complete_with :
      Option (Dict String (CompleteCallback F)) → String → String → Fields F → Handled (List String)
  complete_with none parameter given arguments = value []
  complete_with (some callbacks) parameter given arguments = elim (lookup parameter callbacks) [
    | none ↦ value []
    | some callback ↦ callback given arguments
  ]

  unfoldable pub complete_parameter :
      String → String → String → Fields F → TemplateRegistry F → Handled (List String)
  unfolding complete_with
  complete_parameter name parameter given arguments r = elim (lookup name r.templates) [
    | none ↦ failed (str_append "template not found: " name)
    | some a ↦
        let e = r.registrations a in
        if e.enabled
        then complete_with (r.objects e.template).complete_callbacks parameter given arguments
        else failed (str_append "template is disabled: " name)
  ]

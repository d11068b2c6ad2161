-- ===== src/Server/Registration.antt =====
-- server/server.go: NewServer, and registration of resources, tools, prompts and custom handlers.
use mcp_go_sdk.Prelude.{
  ◌*◌, Bool, true, false, ◌||◌, none, some, List, [], ◌∷◌, ◌++◌, String, string_Key, nat_Key,
  if◌then◌else◌, is_some, ◌==◌,
}
use mcp_go_sdk.Prelude.Dict.{lookup, insert, erase}
use mcp_go_sdk.Value.{Fields}
use mcp_go_sdk.Shared.Types.{ServerCapabilities, Resource, Tool, Prompt, PromptArgument}
use mcp_go_sdk.Server.{
  Server, ServerConfig, Table, ResourceHandler, ToolHandler, PromptHandler, HandlerFunc,
  notification, empty_table,
}

unfoldable pub new_server : {F : Type 0} → ServerConfig → Server F
new_server config = record {
  info = record { name = config.name; version = config.version; protocol_version = "" };
  capabilities = config.capabilities;
  resource_table = empty_table;
  tool_table = empty_table;
  prompt_table = empty_table;
  request_handlers = [];
  sent = [];
  max_concurrent_requests =
      if config.max_concurrent_requests == 0 then 100 else config.max_concurrent_requests;
  request_timeout =
      if config.request_timeout == 0 then 30 * 1_000_000_000 else config.request_timeout;
  done = false;
}

module _ {H M : Type 0} where
  unfoldable pub add : String → H → M → Table H M → Table H M
  add k h m t = record { handlers = insert k h t.handlers; metadata = insert k m t.metadata }

  unfoldable pub has : String → Table H M → Bool
  has k t = is_some (lookup k t.handlers) || is_some (lookup k t.metadata)

  unfoldable pub remove : String → Table H M → Table H M
  remove k t = record { handlers = erase k t.handlers; metadata = erase k t.metadata }

abbrev pub lists_resources : ServerCapabilities → Bool
lists_resources c = elim c.resources [ none ↦ false | some r ↦ r.list_changed ]

abbrev pub lists_tools : ServerCapabilities → Bool
lists_tools c = elim c.tools [ none ↦ false | some r ↦ r.list_changed ]

abbrev pub lists_prompts : ServerCapabilities → Bool
lists_prompts c = elim c.prompts [ none ↦ false | some r ↦ r.list_changed ]

module _ {F : Type 0} where
  -- SendNotification, if the capability is on
  unfoldable pub notify : Bool → String → Server F → Server F
  notify enabled method s = record s {
    sent = if enabled then s.sent ++ notification method ∷ [] else s.sent;
  }

  unfoldable pub register_resource :
      String → String → String → ResourceHandler → Server F → Server F
  unfolding notify add
  register_resource uri name description handler s =
      let meta : Resource = record {
        uri = uri;
        name = name;
        description = description;
        mime_type = "";
      } in
      notify (lists_resources s.capabilities) "notifications/resources/list_changed"
        (record s { resource_table = add uri handler meta s.resource_table })

  unfoldable pub unregister_resource : String → Server F → Server F × Bool
  unfolding notify remove
  unregister_resource uri s =
      if has uri s.resource_table
      then (
        notify (lists_resources s.capabilities) "notifications/resources/list_changed"
            (record s { resource_table = remove uri s.resource_table }),
        true,
      )
      else (s, false)

  unfoldable pub register_tool : String → String → Fields F → ToolHandler F → Server F → Server F
  unfolding notify add
  register_tool name description input_schema handler s =
      let meta : Tool F = record {
        name = name;
        description = description;
        input_schema = input_schema;
      } in
      notify (lists_tools s.capabilities) "notifications/tools/list_changed"
        (record s { tool_table = add name handler meta s.tool_table })

  unfoldable pub unregister_tool : String → Server F → Server F × Bool
  unfolding notify remove
  unregister_tool name s =
      if has name s.tool_table
      then (
        notify (lists_tools s.capabilities) "notifications/tools/list_changed"
            (record s { tool_table = remove name s.tool_table }),
        true,
      )
      else (s, false)

  unfoldable pub register_prompt :
      String → String → List PromptArgument → PromptHandler F → Server F → Server F
  unfolding notify add
  register_prompt name description arguments handler s =
      let meta : Prompt = record {
        name = name;
        description = description;
        arguments = arguments;
      } in
      notify (lists_prompts s.capabilities) "notifications/prompts/list_changed"
        (record s { prompt_table = add name handler meta s.prompt_table })

  unfoldable pub unregister_prompt : String → Server F → Server F × Bool
  unfolding notify remove
  unregister_prompt name s =
      if has name s.prompt_table
      then (
        notify (lists_prompts s.capabilities) "notifications/prompts/list_changed"
            (record s { prompt_table = remove name s.prompt_table }),
        true,
      )
      else (s, false)

  unfoldable pub register_handler : String → HandlerFunc F → Server F → Server F
  register_handler method handler s = record s {
    request_handlers = insert method handler s.request_handlers;
  }

-- The operations that change what a server offers.
pub data Change (F : Type 0) : Type 0 where
  adds_resource : String → String → String → ResourceHandler → Change F
  removes_resource : String → Change F
  adds_tool : String → String → Fields F → ToolHandler F → Change F
  removes_tool : String → Change F
  adds_prompt : String → String → List PromptArgument → PromptHandler F → Change F
  removes_prompt : String → Change F
  adds_handler : String → HandlerFunc F → Change F

module _ {F : Type 0} where
  unfoldable pub change : Change F → Server F → Server F
  change (adds_resource uri name description h) s = register_resource uri name description h s
  change (removes_resource uri) s = (unregister_resource uri s).0
  change (adds_tool name description schema h) s = register_tool name description schema h s
  change (removes_tool name) s = (unregister_tool name s).0
  change (adds_prompt name description arguments h) s =
      register_prompt name description arguments h s
  change (removes_prompt name) s = (unregister_prompt name s).0
  change (adds_handler method h) s = register_handler method h s

  unfoldable pub changes : List (Change F) → Server F → Server F
  changes [] s = s
  changes (c ∷ cs) s = changes cs (change c s)

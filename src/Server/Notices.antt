-- ===== src/Server/Notices.antt =====
-- server/server.go: the list_changed notifications.
use mcp_go_sdk.Prelude.{
  Bool, ◌&&◌, ◌≡◌, List, [], ◌∷◌, ◌++◌, String, string_Key, if◌then◌else◌, arith,
}
use mathlib.Core.List.{append-nil}
use mcp_go_sdk.Server.{Server, Outgoing, notification}
use mcp_go_sdk.Server.Registration.{
  has, notify, lists_resources, lists_tools, lists_prompts, Change, adds_resource, removes_resource,
  adds_tool, removes_tool, adds_prompt, removes_prompt, adds_handler, change, register_resource,
  unregister_resource, register_tool, unregister_tool, register_prompt, unregister_prompt,
  register_handler,
}

module _ {F : Type 0} where
  abbrev pub announces : Bool → String → List (Outgoing F)
  announces b method = if b then notification method ∷ [] else []

  -- What a change announces: an addition always, a removal if something was there, each only
  -- where the server's capabilities promise the notification; a custom handler nothing.
  abbrev pub announced : Change F → Server F → List (Outgoing F)
  announced (adds_resource uri name description h) s =
      announces (lists_resources s.capabilities) "notifications/resources/list_changed"
  announced (removes_resource uri) s =
      announces (has uri s.resource_table && lists_resources s.capabilities)
        "notifications/resources/list_changed"
  announced (adds_tool name description schema h) s =
      announces (lists_tools s.capabilities) "notifications/tools/list_changed"
  announced (removes_tool name) s =
      announces (has name s.tool_table && lists_tools s.capabilities)
        "notifications/tools/list_changed"
  announced (adds_prompt name description arguments h) s =
      announces (lists_prompts s.capabilities) "notifications/prompts/list_changed"
  announced (removes_prompt name) s =
      announces (has name s.prompt_table && lists_prompts s.capabilities)
        "notifications/prompts/list_changed"
  announced (adds_handler method h) s = []

  -- A change of what the server offers sends what it announces and nothing else.
  pub change-announced : (c : Change F) (s : Server F) → (change c s).sent ≡ s.sent ++ announced c s
  unfolding change notify register_resource unregister_resource register_tool unregister_tool
      register_prompt unregister_prompt register_handler
  change-announced (adds_handler method h) s = ground (arith, append-nil s.sent)
  change-announced _ s = ground (arith, append-nil s.sent)

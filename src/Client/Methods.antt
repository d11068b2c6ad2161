-- ===== src/Client/Methods.antt =====
-- client/client.go: the methods of the client, each a request and what is read of its result.
use mcp_go_sdk.Prelude.{Option, none, some, List, String}
use Prim.Native.String.{◌++◌ as str_append}
use mcp_go_sdk.Value.{Value, null, str, obj, Fields, end, field, get}
use mcp_go_sdk.Shared.Types.{Resource, ResourceContent, Tool, Prompt, latest_protocol_version}
use mcp_go_sdk.Client.{
  CallToolResult, Client, ClientConfig, GetPromptResult, Got, ServerInfo, Transport, finish,
  get_items, get_string, or_else, read_contents_entry, read_maps, read_prompt_entry,
  read_prompt_result, read_resource_entry, read_tool_entry, read_tool_result, not_sent, cancelled,
  received, failed,
}

module _ {F : Type 0} where
  abbrev pub named : String → Fields F → Value F
  named name arguments = obj (field "name" (str name) (field "arguments" (obj arguments) end))

  unfoldable pub list_resources : Transport F → Got (List Resource)
  unfolding finish get_items read_maps read_resource_entry
  list_resources send =
      finish "error: " (λ m. read_maps read_resource_entry (get_items "resources" m))
        (send "resources/list" null)

  unfoldable pub read_resource : Transport F → String → Got (List ResourceContent)
  unfolding finish get_items read_maps read_contents_entry
  read_resource send uri =
      finish "error: " (λ m. read_maps read_contents_entry (get_items "contents" m))
        (send "resources/read" (obj (field "uri" (str uri) end)))

  unfoldable pub list_tools : Transport F → Got (List (Tool F))
  unfolding finish get_items read_maps read_tool_entry
  list_tools send =
      finish "error: " (λ m. read_maps read_tool_entry (get_items "tools" m))
        (send "tools/list" null)

  unfoldable pub call_tool : Transport F → String → Fields F → Got CallToolResult
  unfolding finish read_tool_result
  call_tool send name arguments =
      finish "error: " read_tool_result (send "tools/call" (named name arguments))

  unfoldable pub list_prompts : Transport F → Got (List Prompt)
  unfolding finish get_items read_maps read_prompt_entry
  list_prompts send =
      finish "error: " (λ m. read_maps read_prompt_entry (get_items "prompts" m))
        (send "prompts/list" null)

  unfoldable pub get_prompt : Transport F → String → Fields F → Got GetPromptResult
  unfolding finish read_prompt_result
  get_prompt send name arguments =
      finish "error: " read_prompt_result (send "prompts/get" (named name arguments))

  abbrev pub initialize_params : ClientConfig F → Value F
  initialize_params config = obj (
      field "protocolVersion" (str latest_protocol_version) (
        field "capabilities" config.capabilities (
          field "clientInfo"
            (obj (field "name" (str config.name) (field "version" (str config.version) end))) end)))

  -- What a response says of the server, if it has a map of that name
  unfoldable pub read_server_info : Fields F → Option ServerInfo
  unfolding get_string
  read_server_info m = elim (get "serverInfo" m) [
    | none ↦ none
    | some v ↦ elim v [
      | obj info ↦
          some (record { name = get_string "name" info; version = get_string "version" info })
      | _ ↦ none
    ]
  ]

  -- The client after Initialize, which keeps what it knew if the response does not say, or its error
  unfoldable pub initialize : Transport F → Client F → Got (Client F)
  unfolding finish read_server_info
  initialize send c = elim (send "initialize" (initialize_params c.config)) [
    | not_sent problem ↦ failed (str_append "failed to send initialize request: " problem)
    | cancelled problem ↦ failed problem
    | received response ↦
        finish "initialize error: "
          (λ m. record c { server_info = or_else (read_server_info m) c.server_info })
          (received response)
  ]

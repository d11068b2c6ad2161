-- ===== src/Client/Served.antt =====
-- client/client.go against server/server.go: what the client's methods give of a server's replies.
use mcp_go_sdk.Prelude.{◌≡◌, refl, ap, ◌∙◌, false, none, some, List, String, map, string_Key}
use Prim.Native.String.{◌++◌ as str_append}
use mcp_go_sdk.Prelude.Dict.{values, lookup}
use mcp_go_sdk.Value.{null, str, obj, Fields, end, field, get}
use mcp_go_sdk.Shared.Message.{Response}
use mcp_go_sdk.Shared.Types.{Content, text, image, audio, ResourceContent}
use mcp_go_sdk.Server.{
  Server, Handled, value, failed as handler_failed, Reply, result, error, contents, content,
  ToolHandler, ResourceHandler,
}
use mcp_go_sdk.Server.Handlers.{
  Params, reply_to, handle_tools_list, handle_resources_list, handle_prompts_list,
  handle_tools_call, handle_resources_read, unmarshal_params, read_uri, reply_of,
}
use mcp_go_sdk.Client.{
  Transport, received, Got, got, failed, finish, CallToolResult, get_string, get_bool, get_items,
  read_maps, read_text_content, read_contents_entry, read_tool_result, read_resource_entry,
  read_tool_entry, read_prompt_entry,
}
use mcp_go_sdk.Client.Methods.{
  list_tools, list_resources, list_prompts, call_tool, read_resource, named,
}
use mcp_go_sdk.Client.Encoding.{
  Rereads, encode_result, encode_resource, encode_tool, encode_prompt, encode_content,
}
use mcp_go_sdk.Client.Reading.{
  read_maps-encode_list, get_string-optional, get_string-other, resource_read, prompt_read,
  tool_read, reread_tool, kept, content_read, map_same,
}

-- The response that a reply is to the other end
unfoldable pub response_of : {F : Type 0} → Rereads F → Reply F → Response F
unfolding encode_result
response_of json (result r) = record {
  jsonrpc = "2.0";
  id = null;
  result = encode_result json r;
  error = none;
}
response_of json (error e) = record { jsonrpc = "2.0"; id = null; result = null; error = some e }

-- A transport at whose other end is the server `s`
unfoldable pub served : {F : Type 0} → Params F → Rereads F → Server F → Transport F
unfolding reply_to response_of
served codec json s method params = received (
    some (
      response_of json (
        reply_to codec (record { jsonrpc = "2.0"; id = null; method = method; params = params })
          s)))

-- What the answer to a tool's handler is to the client
abbrev pub tool_answer : Handled (List Content) → Got CallToolResult
tool_answer (value blocks) = got (record { content = map kept blocks; is_error = false })
tool_answer (handler_failed message) = failed (str_append "error: " message)

-- What a resource's block of content is to the client
abbrev pub resource_content : Content → ResourceContent
resource_content (text t uri) = record { uri = uri; mime_type = ""; text = t; blob = "" }
resource_content (image bytes mime) = record { uri = ""; mime_type = mime; text = ""; blob = "" }
resource_content (audio bytes mime) = record { uri = ""; mime_type = mime; text = ""; blob = "" }

abbrev pub resource_answer : Handled (List Content) → Got (List ResourceContent)
resource_answer (value blocks) = got (map resource_content blocks)
resource_answer (handler_failed message) = failed (str_append "error: " message)

module _ {F : Type 0} (codec : Params F) (json : Rereads F) (s : Server F) where
  -- A client lists what the server has: the resources and the prompts as they are registered, and
  -- the tools with their schemas as encoding/json gives them back.
  pub lists_served :
      (list_resources (served codec json s) ≡ got (values s.resource_table.metadata))
      × (list_prompts (served codec json s) ≡ got (values s.prompt_table.metadata))
      × (list_tools (served codec json s)
          ≡ got (map (reread_tool F json) (values s.tool_table.metadata)))
  unfolding list_resources list_prompts list_tools served response_of reply_to handle_resources_list
      handle_prompts_list handle_tools_list encode_result finish get_items get
  lists_served = (
    ap got (
        read_maps-encode_list read_resource_entry encode_resource (λ r. r) (resource_read F)
          (values s.resource_table.metadata)
        ∙ map_same (values s.resource_table.metadata)),
    ap got (
        read_maps-encode_list read_prompt_entry encode_prompt (λ p. p) (prompt_read F)
          (values s.prompt_table.metadata)
        ∙ map_same (values s.prompt_table.metadata)),
    ap got (
        read_maps-encode_list read_tool_entry (encode_tool json) (reread_tool F json)
          (tool_read F json) (values s.tool_table.metadata)),
  )

  tool_answered :
      (h : Handled (List Content))
      → finish "error: " read_tool_result (received (some (response_of json (reply_of content h))))
        ≡ tool_answer h
  unfolding finish response_of encode_result read_tool_result get_items get_bool get
  tool_answered (value blocks) =
      ap (λ cs. got (record { content = cs; is_error = false }))
        (read_maps-encode_list read_text_content encode_content kept (content_read F) blocks)
  tool_answered (handler_failed message) = refl

  -- A tool that the server has, called by a client, gives the client its texts, each with its uri, or
  -- its error; of a block that is an image or audio, only an empty text arrives. For params that the
  -- server decodes to the name that was sent.
  pub call_tool-served :
      (name : String) (arguments sent : Fields F) (handler : ToolHandler F)
      → codec.call_params (named name arguments)
        ≡ some (record { name = name; arguments = sent; meta = none })
      → lookup name s.tool_table.handlers ≡ some handler
      → call_tool (served codec json s) name arguments
        ≡ tool_answer (handler (record { progress_token = none }) name sent)
  unfolding call_tool served reply_to handle_tools_call unmarshal_params
  call_tool-served name arguments sent handler decoded found =
      let replied : handle_tools_call codec (named name arguments) s
          ≡ reply_of content (handler (record { progress_token = none }) name sent) =
        rw (handle_tools_call, decoded, found) refl in
      ap (λ r. finish "error: " read_tool_result (received (some (response_of json r)))) replied
      ∙ tool_answered (handler (record { progress_token = none }) name sent)

  resource_content_read :
      (c : Content) → read_contents_entry {F = F} (encode_content c) ≡ resource_content c
  unfolding read_contents_entry get_string get
  resource_content_read (text t uri) =
      rw
        (
          get_string-optional {F = F} "uri" uri end refl,
          get_string-other {F = F} "mimeType" "uri" uri end refl,
          get_string-other {F = F} "blob" "uri" uri end refl,
        )
        refl
  resource_content_read (image bytes mime) = refl
  resource_content_read (audio bytes mime) = refl

  resource_answered :
      (h : Handled (List Content))
      → finish "error: "
          (λ m. read_maps read_contents_entry (get_items "contents" m))
          (received (some (response_of json (reply_of contents h))))
        ≡ resource_answer h
  unfolding finish response_of encode_result get_items get
  resource_answered (value blocks) = ap got (
      read_maps-encode_list read_contents_entry encode_content resource_content
        resource_content_read blocks)
  resource_answered (handler_failed message) = refl

  -- A resource that the server has, read by a client, gives the client its texts, each with its uri,
  -- or its error; of a block that is an image or audio, only the MIME type arrives. For params that
  -- the server decodes to the uri that was sent.
  pub read_resource-served :
      (uri : String) (handler : ResourceHandler)
      → codec.read_params (obj (field "uri" (str uri) end)) ≡ some uri
      → lookup uri s.resource_table.handlers ≡ some handler
      → read_resource (served codec json s) uri ≡ resource_answer (handler uri)
  unfolding read_resource served reply_to handle_resources_read read_uri unmarshal_params
  read_resource-served uri handler decoded found =
      let replied : handle_resources_read codec (obj (field "uri" (str uri) end)) s
          ≡ reply_of contents (handler uri) =
        rw (handle_resources_read, decoded, found) refl in
      ap
        (λ r.
          finish "error: " (λ m. read_maps read_contents_entry (get_items "contents" m))
            (received (some (response_of json r))))
        replied
      ∙ resource_answered (handler uri)

-- ===== src/Client/Examples.antt =====
-- Instances for the client: a server with one tool, one resource and one prompt. A float64 is a number
-- here.
use mcp_go_sdk.Prelude.{ℕ, ◌≡◌, refl, false, Option, none, some, [], ◌∷◌, String, map, string_Key}
use mcp_go_sdk.Prelude.Dict.{lookup, insert, values}
use mcp_go_sdk.Value.{Value, str, obj, end, get}
use mcp_go_sdk.Shared.Types.{text, image}
use mcp_go_sdk.Server.{Server, ServerConfig, value, ToolHandler, ResourceHandler, PromptHandler}
use mcp_go_sdk.Server.Registration.{
  new_server, add, notify, register_tool, register_resource, register_prompt,
}
use mcp_go_sdk.Server.Handlers.{Params, CallParams, GetParams}
use mcp_go_sdk.Client.{got}
use mcp_go_sdk.Client.Methods.{list_resources, list_prompts, list_tools, call_tool, read_resource}
use mcp_go_sdk.Client.Encoding.{Rereads}
use mcp_go_sdk.Client.Reading.{reread_tool}
use mcp_go_sdk.Client.Served.{
  served, lists_served, call_tool-served, read_resource-served, resource_answer,
}

abbrev text_at : String → Value ℕ → Option String
text_at k (obj m) = elim (get k m) [ some (str s) ↦ some s | _ ↦ none ]
text_at k _ = none

abbrev decode_call : Option String → Option (CallParams ℕ)
decode_call none = none
decode_call (some name) = some (record { name = name; arguments = end; meta = none })

abbrev decode_get : Option String → Option (GetParams ℕ)
decode_get none = none
decode_get (some name) = some (record { name = name; arguments = end })

abbrev codec : Params ℕ
codec = record {
  read_params = text_at "uri";
  call_params = λ v. decode_call (text_at "name" v);
  get_params = λ v. decode_get (text_at "name" v);
}

abbrev json : Rereads ℕ
json = record { reread = λ m. m; reread_value = λ v. v; encode_capabilities = λ c. obj end }

abbrev config : ServerConfig
config = record {
  name = "example-server";
  version = "1.0.0";
  max_concurrent_requests = 2;
  request_timeout = 0;
  capabilities = record {
    logging = false;
    prompts = none;
    resources = none;
    tools = none;
    completions = false;
  };
}

abbrev draw : ToolHandler ℕ
draw context name arguments = value (text "done" "" ∷ image "aGk=" "image/png" ∷ [])

abbrev read_file : ResourceHandler
read_file uri = value (text "hello" uri ∷ [])

abbrev greet : PromptHandler ℕ
greet name arguments = value (record { role = "user"; content = text "hello" "" ∷ [] })

abbrev server : Server ℕ
server = register_tool "draw" "Draws." end draw (
    register_resource "file:///a" "a" "" read_file
      (register_prompt "greet" "Greets." [] greet (new_server config)))

lists_served_example :
    (list_resources (served codec json server) ≡ got (values server.resource_table.metadata))
    × (list_prompts (served codec json server) ≡ got (values server.prompt_table.metadata))
    × (list_tools (served codec json server)
        ≡ got (map (reread_tool ℕ json) (values server.tool_table.metadata)))
lists_served_example = lists_served codec json server

call_tool-served_example :
    call_tool (served codec json server) "draw" end
    ≡ got (record { content = text "done" "" ∷ text "" "" ∷ []; is_error = false })
unfolding register_tool add notify register_resource register_prompt new_server lookup insert get
call_tool-served_example = call_tool-served codec json server "draw" end end draw refl refl

read_resource-served_example :
    read_resource (served codec json server) "file:///a" ≡ resource_answer (read_file "file:///a")
unfolding register_tool add notify register_resource register_prompt new_server lookup insert get
read_resource-served_example =
    read_resource-served codec json server "file:///a" read_file refl refl

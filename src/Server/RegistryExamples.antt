-- ===== src/Server/RegistryExamples.antt =====
-- Instances for the registries. The world of a handler is a text here.
use mcp_go_sdk.Prelude.{ℕ, ◌≡◌, refl, false, none, List, [], ◌∷◌, String, string_Key, arith}
use mcp_go_sdk.Prelude.Dict.{lookup, insert}
use mcp_go_sdk.Value.{end}
use mcp_go_sdk.Shared.Types.{text}
use mcp_go_sdk.Server.{value, failed}
use mcp_go_sdk.Server.Resources.{
  ResourceRegistry, ResourceEntry, Reader, cached, new_resource_registry, notify_subscribers,
  resources_register, read_begin, read_end, update_access_stats,
}
use mcp_go_sdk.Server.Resources.Steps.{ResourceCall, resource_run}
use mcp_go_sdk.Server.Resources.Caching.{read_end-read_begin, stale_content}
use mcp_go_sdk.Server.Resources.Upkeep.{IsServed, resource_run-IsServed}
use mcp_go_sdk.Server.Tools.{ToolRegistry, ToolEntry, Runner, new_tool_registry, tools_register}
use mcp_go_sdk.Server.Tools.Steps.{ToolCall, tool_run}
use mcp_go_sdk.Server.Tools.Tally.{IsRun, tool_run-IsRun}

abbrev reader : Reader String
reader world uri = value (text world "" ∷ [])

abbrev other_reader : Reader String
other_reader world uri = failed "gone"

abbrev note : ResourceEntry String
note = record {
  resource = record { uri = "note"; name = "Note"; description = ""; mime_type = "" };
  handler = reader;
  last_accessed = 1;
  access_count = 0;
  cache_entry = none;
}

abbrev shelf : ResourceRegistry String
shelf = resources_register 1 "note" "Note" "" reader (new_resource_registry 2 100)

read_end-read_begin_example :
    let (g, outcome) = read_end 5 "first" "note" note shelf in
    (outcome ≡ value (text "first" "" ∷ []))
    × (read_begin 50 "note" false g
        ≡ (update_access_stats 50 "note" g, cached (text "first" "" ∷ [])))
unfolding resources_register new_resource_registry notify_subscribers lookup insert
read_end-read_begin_example =
    read_end-read_begin 5 50 "first" "note" false (text "first" "" ∷ []) note note shelf refl refl
      (omega arith)

stale_content_example :
    let (g, outcome) =
      read_end 5 "first" "note" note (resources_register 4 "note" "New" "" other_reader shelf) in
    read_begin 50 "note" false g ≡ (update_access_stats 50 "note" g, cached (text "first" "" ∷ []))
unfolding resources_register new_resource_registry notify_subscribers
stale_content_example =
    stale_content 4 5 50 "first" "note" "New" "" other_reader false (text "first" "" ∷ []) note
      shelf refl (omega arith)

abbrev resource_calls : List (ResourceCall String)
resource_calls =
    ResourceCall.subscribes "client"
    ∷ ResourceCall.registers 1 "note" "Note" "" reader
    ∷ ResourceCall.begins 2 "note" false
    ∷ ResourceCall.unregisters "note"
    ∷ ResourceCall.ends 3 "first" 0
    ∷ ResourceCall.unsubscribes "client"
    ∷ []

resource_run-IsServed_example :
    IsServed
      (resource_run resource_calls (record { registry = new_resource_registry 2 100; active = [] }))
resource_run-IsServed_example = resource_run-IsServed 2 100 resource_calls

abbrev runner : Runner ℕ String
runner world name arguments = failed world

abbrev tool_calls : List (ToolCall ℕ String)
tool_calls =
    ToolCall.registers 1 "add" "" end runner
    ∷ ToolCall.begins "add" end false
    ∷ ToolCall.ends 9 8 "overflow" 0
    ∷ []

tool_run-IsRun_example :
    IsRun (tool_run tool_calls (record { registry = new_tool_registry 2 100; active = [] }))
tool_run-IsRun_example = tool_run-IsRun 2 100 tool_calls

abbrev add_entry : ToolEntry ℕ String
add_entry = record {
  tool = record { name = "add"; description = ""; input_schema = end };
  handler = runner;
  execution_count = 0;
  last_executed = 1;
  average_exec_time = 0;
}

abbrev bench : ToolRegistry ℕ String
bench = tools_register 1 "add" "" end runner (new_tool_registry 2 100)

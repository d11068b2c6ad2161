-- ===== src/Server/Examples.antt =====
-- Tests and instances for the server. A float64 is a number here.
use mcp_go_sdk.Prelude.{
  ℕ, ◌≡◌, refl, true, false, Option, none, some, List, [], ◌∷◌, ◌++◌, String, string_Key, here,
}
use mcp_go_sdk.Prelude.Dict.{lookup, insert, erase}
use mcp_go_sdk.Value.{Value, str, obj, int64, end, field, get}
use mcp_go_sdk.Shared.Message.{Request}
use mcp_go_sdk.Shared.Types.{text, Tool}
use mcp_go_sdk.Server.{
  Server, ServerConfig, value, failed, ToolHandler, ResourceHandler, HandlerFunc, response,
}
use mcp_go_sdk.Server.Registration.{
  new_server, add, remove, has, notify, register_tool, unregister_tool, register_resource,
  register_handler, Change, adds_resource, adds_tool, removes_tool, change, changes,
}
use mcp_go_sdk.Server.Handlers.{
  CallParams, Params, unmarshal_params, read_uri, reply_to, handle_request, handle_tools_call,
  handle_tools_list,
}
use mcp_go_sdk.Server.Consistency.{IsConsistent, changes-IsConsistent}
use mcp_go_sdk.Server.Calls.{no_call, run_tool, listed-callable}
use mcp_go_sdk.Server.Methods.{handle_request-register_handler}
use mcp_go_sdk.Server.Notices.{announced, change-announced}
use mcp_go_sdk.Server.Workers.{Event, arrives, takes, starts, finishes, start, advances}
use mcp_go_sdk.Server.Workers.Conservation.{tally_all, advances-tally}
use mcp_go_sdk.Server.Workers.Bounds.{IsBounded, advances-IsBounded}

abbrev text_at : String → Value ℕ → Option String
text_at k (obj m) = elim (get k m) [ some (str s) ↦ some s | _ ↦ none ]
text_at k _ = none

abbrev decode_call : Option String → Option (CallParams ℕ)
decode_call none = none
decode_call (some name) = some (record { name = name; arguments = end; meta = none })

abbrev codec : Params ℕ
codec = record {
  read_params = text_at "uri";
  call_params = λ v. decode_call (text_at "name" v);
  get_params = λ v. none;
}

abbrev config : ServerConfig
config = record {
  name = "example-server";
  version = "1.0.0";
  max_concurrent_requests = 2;
  request_timeout = 0;
  capabilities = record {
    logging = false;
    prompts = none;
    resources = none;
    tools = some (record { list_changed = true });
    completions = false;
  };
}

abbrev echo : ToolHandler ℕ
echo context name arguments = value (text name "" ∷ [])

abbrev read_file : ResourceHandler
read_file uri = value (text "hello" uri ∷ [])

abbrev history : List (Change ℕ)
history =
    adds_tool "echo" "Echo the input" end echo
    ∷ adds_resource "file:///a" "a" "" read_file
    ∷ removes_tool "missing"
    ∷ []

abbrev server : Server ℕ
server = changes history (new_server config)

server-IsConsistent : IsConsistent server
server-IsConsistent = changes-IsConsistent config history

abbrev params : Value ℕ
params = obj (field "name" (str "echo") end)

abbrev call : CallParams ℕ
call = record { name = "echo"; arguments = end; meta = none }

abbrev shown : Tool ℕ
shown = record { name = "echo"; description = "Echo the input"; input_schema = end }

decoded : unmarshal_params codec.call_params no_call params ≡ some call
unfolding unmarshal_params get
decoded = refl

decoded_uri : read_uri codec (str "file:///a") ≡ some "file:///a"
unfolding read_uri
decoded_uri = refl

changes-IsConsistent_example : IsConsistent (changes history (new_server config))
changes-IsConsistent_example = changes-IsConsistent config history

listed-callable_example :
    (handler : ToolHandler ℕ) × (lookup "echo" server.tool_table.handlers ≡ some handler)
    × (handle_tools_call codec params server ≡ run_tool codec call handler)
unfolding handle_tools_list new_server changes change register_tool register_resource
    unregister_tool notify add has remove insert erase lookup
listed-callable_example =
    listed-callable codec (shown ∷ []) shown params call server server-IsConsistent refl (here refl)
      decoded refl

abbrev shout : HandlerFunc ℕ
shout v = failed "no"

abbrev request : String → Request ℕ
request method = record { jsonrpc = "2.0"; id = int64 7; method = method; params = params }

handle_request-register_handler_example :
    (handle_request codec (request "tools/list") (register_handler "tools/list" shout server)).sent
    ≡ server.sent ++ response (int64 7) (reply_to codec (request "tools/list") server) ∷ []
handle_request-register_handler_example =
    handle_request-register_handler codec "tools/list" shout (request "tools/list") server

change-announced_example :
    (change (removes_tool "echo") server).sent
    ≡ server.sent ++ announced (removes_tool "echo") server
change-announced_example = change-announced (removes_tool "echo") server

abbrev events : List (Event ℕ)
events =
    arrives (request "tools/list")
    ∷ takes
    ∷ starts
    ∷ arrives (request "initialize")
    ∷ finishes 0
    ∷ []

advances-tally_example : tally_all (λ id. true) (advances codec events (start config)) ≡ 2
advances-tally_example = advances-tally (λ id. true) codec config events

advances-IsBounded_example : IsBounded 2 (advances codec events (start config))
advances-IsBounded_example = advances-IsBounded codec config events

-- ===== src/Transport/InProcess.antt =====
-- transport/inprocess.go: a client and its server in one process. `Wire` is encoding/json on the
-- server's side of the two byte channels; `incoming` holds what bridgeOutgoing sent to the client's
-- message handler, where nil stands for a response that could not be marshalled.
pub mod Delivery
pub mod Calls
use mcp_go_sdk.Prelude.{
  ℕ, ◌+◌, ◌*◌, Bool, true, false, Option, none, some, List, [], ◌∷◌, ◌++◌, String, string_Key, ◌==◌,
  if◌then◌else◌,
}
use Prim.Native.String.{◌++◌ as str_append}
use mcp_go_sdk.Prelude.Dict.{Dict, lookup, insert, values}
use mcp_go_sdk.Value.{Value, Fields, str, obj, end, field, get, is_null, as_string}
use mcp_go_sdk.Shared.Message.{
  RpcError, rpc_error, method_not_found, invalid_params, internal_error,
}
use mcp_go_sdk.Shared.Types.{
  Implementation, Content, Resource, ResourceContent, Tool, Prompt, latest_protocol_version,
}
use mcp_go_sdk.Server.{Handled, value, failed, PromptMessage, Table, empty_table}
use mcp_go_sdk.Internal.Handler.{
  MessageHandler, Json, Select, sends, aborts, Run, returns, ◌>>=◌, Sent, new_message_handler,
}
use mcp_go_sdk.Internal.Handler.Sending.{send_request}
use mcp_go_sdk.Internal.Handler.Receiving.{handle_incoming_message}
use mcp_go_sdk.Internal.Handler.Steps.{handle_responses}

pub record GetPromptResult : Type 0 where
  pub description : String
  pub messages : List PromptMessage

-- What the server end of the transport reads of a message.
pub record Call (F : Type 0) : Type 0 where
  pub id : Value F
  pub method : String
  pub params : Value F

-- The results of the methods, before they are marshalled. The capabilities of an initialize result
-- are a constant and are left out.
pub data Answer (F : Type 0) : Type 0 where
  initialized : String → Implementation → Answer F
  tools : List (Tool F) → Answer F
  called : List Content → Answer F
  resources : List Resource → Answer F
  contents : List ResourceContent → Answer F
  prompts : List Prompt → Answer F
  prompt : GetPromptResult → Answer F

pub data Reply (F : Type 0) : Type 0 where
  result : Answer F → Reply F
  error : RpcError F → Reply F

pub record Wire (F B : Type 0) : Type 0 where
  pub unmarshal_call : B → Option (Call F)
  pub marshal_reply : Value F → Reply F → Option B

abbrev pub ReadFunc : Type 0
ReadFunc = String → Handled (List ResourceContent)

abbrev pub CallFunc : Type 0 → Type 0
CallFunc F = Fields F → Handled (List Content)

abbrev pub GetFunc : Type 0
GetFunc = Dict String String → Handled GetPromptResult

pub record InProcessTransport (F B : Type 0) : Type 0 where
  pub message_handler : MessageHandler F B
  pub incoming : List (Option B)
  pub resource_table : Table ReadFunc Resource
  pub tool_table : Table (CallFunc F) (Tool F)
  pub prompt_table : Table GetFunc Prompt
  pub server_info : Implementation

-- The params of a call are a map with a text under `key`; `named` keeps both.
pub data Named (F : Type 0) : Type 0 where
  named : String → Fields F → Named F
  refused : RpcError F → Named F

module _ {F : Type 0} where
  unfoldable pub text_at : String → String → Fields F → Named F
  text_at key missing m = elim (get key m) [
    | none ↦ refused (rpc_error invalid_params missing)
    | some v ↦ elim (as_string v) [
      | none ↦ refused (rpc_error invalid_params missing)
      | some s ↦ named s m
    ]
  ]

  unfoldable pub named_params : String → String → Value F → Named F
  unfolding text_at
  named_params key missing (obj m) = text_at key missing m
  named_params key missing _ = refused (rpc_error invalid_params "Invalid params")

  -- `paramsMap["arguments"].(map[string]interface{})`; anything else is the nil map.
  unfoldable pub arguments_of : Fields F → Fields F
  arguments_of m = elim (get "arguments" m) [
    | none ↦ end
    | some v ↦ elim v [ obj arguments ↦ arguments | _ ↦ end ]
  ]

  -- The entries that are texts; the others are left out.
  unfoldable pub string_arguments : Fields F → Dict String String
  string_arguments end = []
  string_arguments (field k v m) =
      let rest = string_arguments m in elim (as_string v) [ none ↦ rest | some s ↦ (k, s) ∷ rest ]

  abbrev pub reply_of : {A : Type 0} → (A → Answer F) → Handled A → Reply F
  reply_of wrap (value a) = result (wrap a)
  reply_of wrap (failed message) = error (rpc_error internal_error message)

  -- The call of a handler found by name, or the error that it was not found.
  abbrev pub call_found : {A : Type 0} → (A → Reply F) → String → Option A → Reply F
  call_found run missing none = error (rpc_error method_not_found missing)
  call_found run missing (some handler) = run handler

module _ {F B : Type 0} where
  unfoldable pub new_in_process_transport : InProcessTransport F B
  new_in_process_transport = record {
    message_handler =
        new_message_handler (record { request_timeout = 30 * 1_000_000_000; buffer_size = 100 });
    incoming = [];
    resource_table = empty_table;
    tool_table = empty_table;
    prompt_table = empty_table;
    server_info = record { name = "in-process-server"; version = "1.0.0"; protocol_version = "" };
  }

  unfoldable pub add_tool : Tool F → CallFunc F → InProcessTransport F B → InProcessTransport F B
  add_tool tool handler t =
      let table = t.tool_table in
      record t {
        tool_table = record {
          handlers = insert tool.name handler table.handlers;
          metadata = insert tool.name tool table.metadata;
        };
      }

  unfoldable pub add_resource :
      Resource → ReadFunc → InProcessTransport F B → InProcessTransport F B
  add_resource resource handler t =
      let table = t.resource_table in
      record t {
        resource_table = record {
          handlers = insert resource.uri handler table.handlers;
          metadata = insert resource.uri resource table.metadata;
        };
      }

  unfoldable pub add_prompt : Prompt → GetFunc → InProcessTransport F B → InProcessTransport F B
  add_prompt about handler t =
      let table = t.prompt_table in
      record t {
        prompt_table = record {
          handlers = insert about.name handler table.handlers;
          metadata = insert about.name about table.metadata;
        };
      }

  unfoldable pub tools_call : Named F → InProcessTransport F B → Reply F
  tools_call (refused e) t = error e
  tools_call (named name m) t =
      call_found (λ handler. reply_of called (handler (arguments_of m)))
        (str_append "Tool not found: " name) (lookup name t.tool_table.handlers)

  unfoldable pub resources_read : Named F → InProcessTransport F B → Reply F
  resources_read (refused e) t = error e
  resources_read (named uri m) t =
      call_found (λ handler. reply_of contents (handler uri))
        (str_append "Resource not found: " uri) (lookup uri t.resource_table.handlers)

  unfoldable pub prompts_get : Named F → InProcessTransport F B → Reply F
  prompts_get (refused e) t = error e
  prompts_get (named name m) t =
      call_found (λ handler. reply_of prompt (handler (string_arguments (arguments_of m))))
        (str_append "Prompt not found: " name) (lookup name t.prompt_table.handlers)

  unfoldable pub handle_request : String → Value F → InProcessTransport F B → Reply F
  unfolding tools_call resources_read prompts_get named_params
  handle_request method params t =
      if method == "initialize"
      then result (initialized latest_protocol_version t.server_info)
      else if method == "tools/list"
      then result (tools (values t.tool_table.metadata))
      else if method == "tools/call"
      then tools_call (named_params "name" "Missing tool name" params) t
      else if method == "resources/list"
      then result (resources (values t.resource_table.metadata))
      else if method == "resources/read"
      then resources_read (named_params "uri" "Missing URI" params) t
      else if method == "prompts/list"
      then result (prompts (values t.prompt_table.metadata))
      else if method == "prompts/get"
      then prompts_get (named_params "name" "Missing prompt name" params) t
      else error (rpc_error method_not_found (str_append "Method not found: " method))

  unfoldable pub put_incoming : Select → Option B → InProcessTransport F B → InProcessTransport F B
  put_incoming sends bytes t = record t { incoming = t.incoming ++ bytes ∷ [] }
  put_incoming aborts bytes t =
      let h = t.message_handler in record t { message_handler = record h { done = true } }

  module _ (wire : Wire F B) where
    -- A message that has been taken from the outgoing channel: a request is answered.
    unfoldable pub bridge_message : Select → B → InProcessTransport F B → InProcessTransport F B
    unfolding put_incoming
    bridge_message sel bytes t = elim (wire.unmarshal_call bytes) [
      | none ↦ t
      | some call ↦
          if is_null call.id
          then t
          else put_incoming sel
              (wire.marshal_reply call.id (handle_request call.method call.params t)) t
    ]

    unfoldable pub bridge_outgoing :
        Select → List B → InProcessTransport F B → InProcessTransport F B
    unfolding bridge_message
    bridge_outgoing sel [] t = t
    bridge_outgoing sel (bytes ∷ rest) t =
        let h = t.message_handler in
        bridge_message sel bytes (record t { message_handler = record h { outgoing_chan = rest } })

  module _ (json : Json F B) where
    -- The message handler takes the oldest of the incoming texts; nil does not parse.
    unfoldable pub process_incoming :
        Select → List (Option B) → InProcessTransport F B → InProcessTransport F B
    process_incoming sel [] t = t
    process_incoming sel (none ∷ rest) t =
        let h = t.message_handler in
        let s = h.stats in
        record t {
          incoming = rest;
          message_handler = record h { stats = record s { errors = s.errors + 1 } };
        }
    process_incoming sel (some bytes ∷ rest) t = record t {
      incoming = rest;
      message_handler = handle_incoming_message json sel bytes t.message_handler;
    }

-- ===== src/Server/Calls.antt =====
-- server/server.go: tools/call and tools/list after a registration or a removal.
use mcp_go_sdk.Prelude.{
  ◌≡◌, sym, ◌∙◌, ap, inl, inr, Option, none, some, List, String, string_Key, if◌then◌else◌, is_some,
  ◌==◌, In, Option-cases, subst,
}
use Prim.Native.String.{◌++◌ as str_append}
use mcp_go_sdk.Prelude.Dict.{lookup, values}
use mcp_go_sdk.Value.{Value, Fields, end}
use mcp_go_sdk.Shared.Message.{rpc_error, invalid_params}
use mcp_go_sdk.Shared.Types.{Tool}
use mcp_go_sdk.Server.{Server, ToolHandler, Reply, result, error, content, tools}
use mcp_go_sdk.Server.Registration.{remove, notify, lists_tools, register_tool, unregister_tool}
use mcp_go_sdk.Server.Handlers.{
  CallParams, Params, unmarshal_params, progress_token, reply_of, handle_tools_call,
  handle_tools_list,
}
use mcp_go_sdk.Server.Consistency.{IsConsistent, listed_handler, add_reply, removed_reply}

abbrev pub no_call : {F : Type 0} → CallParams F
no_call = record { name = ""; arguments = end; meta = none }

module _ {F : Type 0} (codec : Params F) where
  -- How tools/call runs the handler that it finds.
  abbrev pub run_tool : CallParams F → ToolHandler F → Reply F
  run_tool req handler =
      reply_of content
        (handler (record { progress_token = progress_token req.meta }) req.name req.arguments)

  abbrev pub tool_reply : CallParams F → Option (ToolHandler F) → Reply F
  tool_reply req none = error (rpc_error invalid_params (str_append "Tool not found: " req.name))
  tool_reply req (some handler) = run_tool req handler

  handle_tools_call-lookup :
      (params : Value F) (req : CallParams F) (s : Server F)
      → unmarshal_params codec.call_params no_call params ≡ some req
      → handle_tools_call codec params s ≡ tool_reply req (lookup req.name s.tool_table.handlers)
  unfolding handle_tools_call
  handle_tools_call-lookup params req s e =
      elim (Option-cases (lookup req.name s.tool_table.handlers)) [
        | inl missing ↦ rw (handle_tools_call, e, missing)
        | inr (h, found) ↦ rw (handle_tools_call, e, found)
      ]

  -- A call of a tool after RegisterTool: under the new name it runs the new handler, once, with the
  -- call's arguments and progress token; under any other name it answers as before.
  pub handle_tools_call-register_tool :
      (name description : String) (schema : Fields F) (handler : ToolHandler F) (params : Value F)
      (req : CallParams F) (s : Server F)
      → unmarshal_params codec.call_params no_call params ≡ some req
      → handle_tools_call codec params (register_tool name description schema handler s)
        ≡ (if name == req.name then run_tool req handler else handle_tools_call codec params s)
  unfolding register_tool
  handle_tools_call-register_tool name description schema handler params req s e =
      handle_tools_call-lookup params req _ e
      ∙ add_reply (tool_reply req) name req.name handler
          (record { name = name; description = description; input_schema = schema }) s.tool_table
      ∙ ap (λ r. if name == req.name then run_tool req handler else r)
          (sym (handle_tools_call-lookup params req s e))

  -- UnregisterTool says whether the tool was listed; behind it a call of that tool is refused with
  -- "Tool not found" and every other call answers as before.
  pub handle_tools_call-unregister_tool :
      (name : String) (params : Value F) (req : CallParams F) (s : Server F)
      → IsConsistent s
      → unmarshal_params codec.call_params no_call params ≡ some req
      → let (g, removed) = unregister_tool name s in
        (removed ≡ is_some (lookup name s.tool_table.metadata))
        × (handle_tools_call codec params g ≡ (
            if name == req.name
            then error (rpc_error invalid_params (str_append "Tool not found: " req.name))
            else handle_tools_call codec params s))
  unfolding unregister_tool
  handle_tools_call-unregister_tool name params req s v e =
      removed_reply _ (handle_tools_call codec params) (tool_reply req) name req.name s.tool_table s
        _ v.of_tools (handle_tools_call-lookup params req s e)
        (handle_tools_call-lookup params req (after name s) e)
    where
      after : String → Server F → Server F
      after k s =
          notify (lists_tools s.capabilities) "notifications/tools/list_changed"
            (record s { tool_table = remove k s.tool_table })

  -- Every tool that tools/list shows has a handler, and a tools/call of its name runs that handler
  -- with the call's arguments and progress token.
  pub listed-callable :
      (ts : List (Tool F)) (t : Tool F) (params : Value F) (req : CallParams F) (s : Server F)
      → IsConsistent s
      → handle_tools_list s ≡ result (tools ts)
      → In t ts
      → unmarshal_params codec.call_params no_call params ≡ some req
      → req.name ≡ t.name
      → (handler : ToolHandler F) × (lookup t.name s.tool_table.handlers ≡ some handler)
        × (handle_tools_call codec params s ≡ run_tool req handler)
  unfolding handle_tools_list
  listed-callable ts t params req s v shown listed e same =
      let all : values s.tool_table.metadata ≡ ts = cc in
      let (h, found) = listed_handler _ t s.tool_table v.of_tools (subst (In t) (sym all) listed) in
      (
        h,
        found,
        handle_tools_call-lookup params req s e
            ∙ ap (tool_reply req) (ap (λ k. lookup k s.tool_table.handlers) same ∙ found),
      )

-- ===== src/Transport/InProcess/Calls.antt =====
-- transport/inprocess.go: tools/call behind AddTool, and where the in-process server answers as
-- server/server.go does.
use mcp_go_sdk.Prelude.{
  ◌≡◌, refl, sym, ap, ◌∙◌, some, String, string_Key, ◌==◌, if◌then◌else◌, Bool-cases, inl, inr,
}
use mcp_go_sdk.Prelude.Dict.{lookup-insert}
use mcp_go_sdk.Value.{Fields, str, obj, get}
use mcp_go_sdk.Shared.Types.{Tool}
use mcp_go_sdk.Transport.InProcess.{
  InProcessTransport, CallFunc, named, text_at, named_params, arguments_of, reply_of, called,
  add_tool, tools_call, handle_request,
}

named_params-named :
    {F : Type 0} (name missing : String) (m : Fields F)
    → get "name" m ≡ some (str name)
    → named_params "name" missing (obj m) ≡ named name m
unfolding named_params
named_params-named name missing m e = rw (text_at, e) refl

module _ {F B : Type 0} where
  tools_call-add_tool :
      (tool : Tool F) (handler : CallFunc F) (name : String) (m : Fields F)
      (t : InProcessTransport F B)
      → tools_call (named name m) (add_tool tool handler t) ≡ (
          if tool.name == name
          then reply_of called (handler (arguments_of m))
          else tools_call (named name m) t)
  unfolding tools_call add_tool
  tools_call-add_tool tool handler name m t =
      rw (lookup-insert tool.name name handler t.tool_table.handlers)
        (elim (Bool-cases (tool.name == name)) [ inl hit ↦ rw hit refl | inr miss ↦ rw miss refl ])

  call_named :
      (name : String) (m : Fields F) (t : InProcessTransport F B)
      → get "name" m ≡ some (str name)
      → handle_request "tools/call" (obj m) t ≡ tools_call (named name m) t
  unfolding handle_request
  call_named name m t e = ap (λ n. tools_call n t) (named_params-named name "Missing tool name" m e)

  -- After AddTool, a tools/call of the tool's name runs its handler on the arguments of the call,
  -- and a call of any other name is answered as before.
  pub handle_request-add_tool :
      (tool : Tool F) (handler : CallFunc F) (name : String) (m : Fields F)
      (t : InProcessTransport F B)
      → get "name" m ≡ some (str name)
      → handle_request "tools/call" (obj m) (add_tool tool handler t) ≡ (
          if tool.name == name
          then reply_of called (handler (arguments_of m))
          else handle_request "tools/call" (obj m) t)
  handle_request-add_tool tool handler name m t e =
      call_named name m (add_tool tool handler t) e
      ∙ tools_call-add_tool tool handler name m t
      ∙ ap (λ r. if tool.name == name then reply_of called (handler (arguments_of m)) else r)
          (sym (call_named name m t e))

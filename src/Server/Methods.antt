-- ===== src/Server/Methods.antt =====
-- server/server.go: the methods that a custom handler can and cannot take over.
use mcp_go_sdk.Prelude.{
  Bool, ◌||◌, ◌≡◌, ap, ◌∙◌, Option, none, some, [], ◌∷◌, ◌++◌, String, string_Key, if◌then◌else◌,
  ◌==◌, if_ap, arith,
}
use Prim.Native.String.{◌++◌ as str_append}
use mcp_go_sdk.Prelude.Dict.{lookup-insert}
use mcp_go_sdk.Shared.Message.{Request, rpc_error, method_not_found}
use mcp_go_sdk.Server.{Server, HandlerFunc, Reply, error, custom, response}
use mcp_go_sdk.Server.Registration.{register_handler}
use mcp_go_sdk.Server.Handlers.{
  Params, reply_of, reply_to, handle_custom, handle_request, handle_initialize,
  handle_resources_list, handle_tools_list, handle_prompts_list, handle_resources_read,
  handle_tools_call, handle_prompts_get,
}

abbrev pub is_builtin : String → Bool
is_builtin m =
    m == "initialize"
    || m == "resources/list"
    || m == "resources/read"
    || m == "tools/list"
    || m == "tools/call"
    || m == "prompts/list"
    || m == "prompts/get"

module _ {F : Type 0} (codec : Params F) where
  handle_custom-register_handler :
      (method : String) (handler : HandlerFunc F) (request : Request F) (s : Server F)
      → handle_custom codec request (register_handler method handler s) ≡ (
          if method == request.method
          then reply_of custom (handler request.params)
          else handle_custom codec request s)
  unfolding handle_custom register_handler
  handle_custom-register_handler method handler request s =
      ap (answer request) (lookup-insert method request.method handler s.request_handlers)
      ∙ if_ap (answer request) (method == request.method) _ _
    where
      answer : Request F → Option (HandlerFunc F) → Reply F
      answer request o = elim o [
        | none ↦ error (rpc_error method_not_found (str_append "Method not found: " request.method))
        | some h ↦ reply_of custom (h request.params)
      ]

  reply_to-register_handler :
      (method : String) (handler : HandlerFunc F) (request : Request F) (s : Server F)
      → reply_to codec request (register_handler method handler s) ≡ (
          if is_builtin request.method
          then reply_to codec request s
          else if method == request.method
          then reply_of custom (handler request.params)
          else reply_to codec request s)
  unfolding register_handler reply_to handle_initialize handle_resources_list handle_tools_list
      handle_prompts_list handle_resources_read handle_tools_call handle_prompts_get
  reply_to-register_handler method handler request s =
      ground (arith, handle_custom-register_handler method handler request s)

  -- A custom handler answers its method, with its value or its error, unless the method is built
  -- in: those answer as before, and so do all other methods. Every request gets one response,
  -- under its own id.
  pub handle_request-register_handler :
      (method : String) (handler : HandlerFunc F) (request : Request F) (s : Server F)
      → (handle_request codec request (register_handler method handler s)).sent
        ≡ s.sent
          ++ response request.id (
              if is_builtin request.method
              then reply_to codec request s
              else if method == request.method
              then reply_of custom (handler request.params)
              else reply_to codec request s)
            ∷ []
  unfolding handle_request register_handler
  handle_request-register_handler method handler request s =
      ap (λ r. s.sent ++ response request.id r ∷ [])
        (reply_to-register_handler method handler request s)

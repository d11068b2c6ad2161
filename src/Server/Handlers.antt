-- ===== src/Server/Handlers.antt =====
-- server/server.go: the built-in methods and the routing of one request to its handler.
-- `Params` is encoding/json between the params of a request and the struct of a method.
use mcp_go_sdk.Prelude.{Option, none, some, [], ◌∷◌, ◌++◌, String, string_Key, if◌then◌else◌, ◌==◌}
use Prim.Native.String.{◌++◌ as str_append}
use mcp_go_sdk.Prelude.Dict.{lookup, values}
use mcp_go_sdk.Value.{Value, Fields, end, get, is_null, as_string}
use mcp_go_sdk.Shared.Message.{Request, rpc_error, method_not_found, invalid_params, internal_error}
use mcp_go_sdk.Shared.Types.{latest_protocol_version}
use mcp_go_sdk.Server.{
  Server, Handled, value, failed, Result, initialized, resources, contents, tools, content, prompts,
  messages, custom, Reply, result, error, response,
}

-- `meta` is none if the params have no `_meta`.
pub record CallParams (F : Type 0) : Type 0 where
  pub name : String
  pub arguments : Fields F
  pub meta : Option (Fields F)

pub record GetParams (F : Type 0) : Type 0 where
  pub name : String
  pub arguments : Fields F

pub record Params (F : Type 0) : Type 0 where
  pub read_params : Value F → Option String
  pub call_params : Value F → Option (CallParams F)
  pub get_params : Value F → Option (GetParams F)

module _ {F : Type 0} where
  -- With nil params the destination keeps its zero value.
  unfoldable pub unmarshal_params : {A : Type 0} → (Value F → Option A) → A → Value F → Option A
  unmarshal_params decode zero_value params =
      if is_null params then some zero_value else decode params

  unfoldable pub handle_initialize : Server F → Reply F
  handle_initialize s = result (initialized latest_protocol_version s.capabilities s.info)

  unfoldable pub handle_resources_list : Server F → Reply F
  handle_resources_list s = result (resources (values s.resource_table.metadata))

  unfoldable pub handle_tools_list : Server F → Reply F
  handle_tools_list s = result (tools (values s.tool_table.metadata))

  unfoldable pub handle_prompts_list : Server F → Reply F
  handle_prompts_list s = result (prompts (values s.prompt_table.metadata))

  -- What a handler returned, as a reply.
  abbrev pub reply_of : {A : Type 0} → (A → Result F) → Handled A → Reply F
  reply_of wrap (value a) = result (wrap a)
  reply_of wrap (failed message) = error (rpc_error internal_error message)

  -- The token of `_meta`, if it is there and not nil
  abbrev pub progress_token : Option (Fields F) → Option (Value F)
  progress_token none = none
  progress_token (some meta) = elim (get "progressToken" meta) [
    | none ↦ none
    | some token ↦ if is_null token then none else some token
  ]

  module _ (codec : Params F) where
    -- A string is the uri itself; anything else is decoded.
    unfoldable pub read_uri : Value F → Option String
    read_uri params = elim (as_string params) [
      | some uri ↦ some uri
      | none ↦ unmarshal_params codec.read_params "" params
    ]

    unfoldable pub handle_resources_read : Value F → Server F → Reply F
    handle_resources_read params s = elim (read_uri params) [
      | none ↦
          error (
            rpc_error invalid_params "Invalid params: expected string URI or object with uri field")
      | some uri ↦ elim (lookup uri s.resource_table.handlers) [
        | none ↦ error (rpc_error invalid_params (str_append "Resource not found: " uri))
        | some handler ↦ reply_of contents (handler uri)
      ]
    ]

    unfoldable pub handle_tools_call : Value F → Server F → Reply F
    handle_tools_call params s =
        elim (unmarshal_params codec.call_params
          (record { name = ""; arguments = end; meta = none }) params) [
            | none ↦ error (rpc_error invalid_params "Invalid params")
            | some req ↦ elim (lookup req.name s.tool_table.handlers) [
              | none ↦ error (rpc_error invalid_params (str_append "Tool not found: " req.name))
              | some handler ↦ reply_of content (
                  handler (record { progress_token = progress_token req.meta }) req.name
                    req.arguments)
            ]
          ]

    unfoldable pub handle_prompts_get : Value F → Server F → Reply F
    handle_prompts_get params s =
        elim (unmarshal_params codec.get_params (record { name = ""; arguments = end }) params) [
          | none ↦ error (rpc_error invalid_params "Invalid params")
          | some req ↦ elim (lookup req.name s.prompt_table.handlers) [
            | none ↦ error (rpc_error invalid_params (str_append "Prompt not found: " req.name))
            | some handler ↦
                reply_of (λ message. messages (message ∷ [])) (handler req.name req.arguments)
          ]
        ]

    -- The default case of the method switch
    unfoldable pub handle_custom : Request F → Server F → Reply F
    handle_custom request s = elim (lookup request.method s.request_handlers) [
      | none ↦ error (rpc_error method_not_found (str_append "Method not found: " request.method))
      | some handler ↦ reply_of custom (handler request.params)
    ]

    unfoldable pub reply_to : Request F → Server F → Reply F
    reply_to request s =
        if request.method == "initialize"
        then handle_initialize s
        else if request.method == "resources/list"
        then handle_resources_list s
        else if request.method == "resources/read"
        then handle_resources_read request.params s
        else if request.method == "tools/list"
        then handle_tools_list s
        else if request.method == "tools/call"
        then handle_tools_call request.params s
        else if request.method == "prompts/list"
        then handle_prompts_list s
        else if request.method == "prompts/get"
        then handle_prompts_get request.params s
        else handle_custom request s

    -- The reply goes out under the id of the request.
    unfoldable pub handle_request : Request F → Server F → Server F
    unfolding reply_to
    handle_request request s = record s {
      sent = s.sent ++ response request.id (reply_to request s) ∷ [];
    }

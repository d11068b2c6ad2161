-- ===== src/Server/Reads.antt =====
-- server/server.go: resources/read and prompts/get behind a registration or a removal.
use mcp_go_sdk.Prelude.{
  ◌≡◌, sym, ◌∙◌, ap, inl, inr, Option, none, some, List, [], ◌∷◌, String, string_Key, if◌then◌else◌,
  is_some, ◌==◌, Option-cases,
}
use Prim.Native.String.{◌++◌ as str_append}
use mcp_go_sdk.Prelude.Dict.{lookup}
use mcp_go_sdk.Value.{Value, end}
use mcp_go_sdk.Shared.Message.{rpc_error, invalid_params}
use mcp_go_sdk.Shared.Types.{PromptArgument}
use mcp_go_sdk.Server.{Server, ResourceHandler, PromptHandler, Reply, error, contents, messages}
use mcp_go_sdk.Server.Registration.{
  remove, notify, lists_resources, lists_prompts, register_resource, unregister_resource,
  register_prompt, unregister_prompt,
}
use mcp_go_sdk.Server.Handlers.{
  GetParams, Params, unmarshal_params, read_uri, reply_of, handle_resources_read,
  handle_prompts_get,
}
use mcp_go_sdk.Server.Consistency.{IsConsistent, add_reply, removed_reply}

abbrev pub no_get : {F : Type 0} → GetParams F
no_get = record { name = ""; arguments = end }

module _ {F : Type 0} (codec : Params F) where
  abbrev pub resource_reply : String → Option ResourceHandler → Reply F
  resource_reply uri none = error (rpc_error invalid_params (str_append "Resource not found: " uri))
  resource_reply uri (some handler) = reply_of contents (handler uri)

  handle_resources_read-lookup :
      (params : Value F) (uri : String) (s : Server F)
      → read_uri codec params ≡ some uri
      → handle_resources_read codec params s
        ≡ resource_reply uri (lookup uri s.resource_table.handlers)
  unfolding handle_resources_read
  handle_resources_read-lookup params uri s e =
      elim (Option-cases (lookup uri s.resource_table.handlers)) [
        | inl missing ↦ rw (handle_resources_read, e, missing)
        | inr (h, found) ↦ rw (handle_resources_read, e, found)
      ]

  -- A read after RegisterResource: the new uri is read by the new handler, and any other uri as
  -- before.
  pub handle_resources_read-register_resource :
      (new name description : String) (handler : ResourceHandler) (params : Value F) (uri : String)
      (s : Server F)
      → read_uri codec params ≡ some uri
      → handle_resources_read codec params (register_resource new name description handler s) ≡ (
          if new == uri
          then reply_of contents (handler uri)
          else handle_resources_read codec params s)
  unfolding register_resource
  handle_resources_read-register_resource new name description handler params uri s e =
      handle_resources_read-lookup params uri _ e
      ∙ add_reply (resource_reply uri) new uri handler
          (record { uri = new; name = name; description = description; mime_type = "" })
          s.resource_table
      ∙ ap (λ r. if new == uri then reply_of contents (handler uri) else r)
          (sym (handle_resources_read-lookup params uri s e))

  -- UnregisterResource says whether the resource was listed; behind it a read of that uri is
  -- refused with "Resource not found" and every other read answers as before.
  pub handle_resources_read-unregister_resource :
      (gone : String) (params : Value F) (uri : String) (s : Server F)
      → IsConsistent s
      → read_uri codec params ≡ some uri
      → let (g, removed) = unregister_resource gone s in
        (removed ≡ is_some (lookup gone s.resource_table.metadata))
        × (handle_resources_read codec params g ≡ (
            if gone == uri
            then error (rpc_error invalid_params (str_append "Resource not found: " uri))
            else handle_resources_read codec params s))
  unfolding unregister_resource
  handle_resources_read-unregister_resource gone params uri s v e =
      removed_reply _ (handle_resources_read codec params) (resource_reply uri) gone uri
        s.resource_table s _ v.of_resources (handle_resources_read-lookup params uri s e)
        (handle_resources_read-lookup params uri after e)
    where
      after : Server F
      after =
          notify (lists_resources s.capabilities) "notifications/resources/list_changed"
            (record s { resource_table = remove gone s.resource_table })

  abbrev pub prompt_reply : GetParams F → Option (PromptHandler F) → Reply F
  prompt_reply req none =
      error (rpc_error invalid_params (str_append "Prompt not found: " req.name))
  prompt_reply req (some handler) =
      reply_of (λ message. messages (message ∷ [])) (handler req.name req.arguments)

  handle_prompts_get-lookup :
      (params : Value F) (req : GetParams F) (s : Server F)
      → unmarshal_params codec.get_params no_get params ≡ some req
      → handle_prompts_get codec params s
        ≡ prompt_reply req (lookup req.name s.prompt_table.handlers)
  unfolding handle_prompts_get
  handle_prompts_get-lookup params req s e =
      elim (Option-cases (lookup req.name s.prompt_table.handlers)) [
        | inl missing ↦ rw (handle_prompts_get, e, missing)
        | inr (h, found) ↦ rw (handle_prompts_get, e, found)
      ]

  -- A prompts/get after RegisterPrompt: the new name runs the new handler, whose message is the
  -- one message of the reply; any other name answers as before.
  pub handle_prompts_get-register_prompt :
      (name description : String) (arguments : List PromptArgument) (handler : PromptHandler F)
      (params : Value F) (req : GetParams F) (s : Server F)
      → unmarshal_params codec.get_params no_get params ≡ some req
      → handle_prompts_get codec params (register_prompt name description arguments handler s) ≡ (
          if name == req.name
          then reply_of (λ message. messages (message ∷ [])) (handler req.name req.arguments)
          else handle_prompts_get codec params s)
  unfolding register_prompt
  handle_prompts_get-register_prompt name description arguments handler params req s e =
      handle_prompts_get-lookup params req _ e
      ∙ add_reply (prompt_reply req) name req.name handler
          (record { name = name; description = description; arguments = arguments }) s.prompt_table
      ∙ ap (λ r. if name == req.name then prompt_reply req (some handler) else r)
          (sym (handle_prompts_get-lookup params req s e))

  -- UnregisterPrompt says whether the prompt was listed; behind it a prompts/get of that name is
  -- refused with "Prompt not found" and every other one answers as before.
  pub handle_prompts_get-unregister_prompt :
      (name : String) (params : Value F) (req : GetParams F) (s : Server F)
      → IsConsistent s
      → unmarshal_params codec.get_params no_get params ≡ some req
      → let (g, removed) = unregister_prompt name s in
        (removed ≡ is_some (lookup name s.prompt_table.metadata))
        × (handle_prompts_get codec params g ≡ (
            if name == req.name
            then error (rpc_error invalid_params (str_append "Prompt not found: " req.name))
            else handle_prompts_get codec params s))
  unfolding unregister_prompt
  handle_prompts_get-unregister_prompt name params req s v e =
      removed_reply _ (handle_prompts_get codec params) (prompt_reply req) name req.name
        s.prompt_table s _ v.of_prompts (handle_prompts_get-lookup params req s e)
        (handle_prompts_get-lookup params req after e)
    where
      after : Server F
      after =
          notify (lists_prompts s.capabilities) "notifications/prompts/list_changed"
            (record s { prompt_table = remove name s.prompt_table })

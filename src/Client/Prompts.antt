-- ===== src/Client/Prompts.antt =====
-- client/client.go against server/server.go: prompts, and the first exchange.
use mcp_go_sdk.Prelude.{◌≡◌, refl, ap, ◌∙◌, some, List, [], ◌∷◌, String, string_Key, map}
use Prim.Native.String.{◌++◌ as str_append}
use mcp_go_sdk.Prelude.Dict.{lookup}
use mcp_go_sdk.Value.{Fields, get}
use mcp_go_sdk.Shared.Types.{Content}
use mcp_go_sdk.Server.{
  Server, Handled, value, failed as handler_failed, PromptMessage as ServerMessage, messages,
  PromptHandler,
}
use mcp_go_sdk.Server.Handlers.{
  Params, reply_to, reply_of, handle_initialize, handle_prompts_get, unmarshal_params,
}
use mcp_go_sdk.Client.{
  Client, received, Got, got, failed, finish, get_string, get_items, read_maps, read_text_content,
  read_message_entry, read_message_content, read_prompt_result, MessageContent, single, several,
  PromptMessage, GetPromptResult,
}
use mcp_go_sdk.Client.Methods.{read_server_info, get_prompt, initialize, named}
use mcp_go_sdk.Client.Encoding.{Rereads, encode_result, encode_list, encode_content, encode_blocks}
use mcp_go_sdk.Client.Reading.{read_maps-encode_list, kept, content_read}
use mcp_go_sdk.Client.Served.{served, response_of}

-- What the client has of a message's blocks, and of the message
abbrev pub kept_blocks : List Content → MessageContent
kept_blocks (block ∷ []) = single (kept block)
kept_blocks blocks = several (map kept blocks)

abbrev pub kept_message : ServerMessage → PromptMessage
kept_message m = record { role = m.role; content = kept_blocks m.content }

abbrev pub prompt_answer : Handled ServerMessage → Got GetPromptResult
prompt_answer (value message) =
    got (record { description = ""; messages = kept_message message ∷ [] })
prompt_answer (handler_failed message) = failed (str_append "error: " message)

module _ (F : Type 0) where
  blocks_read :
      (blocks : List Content)
      → read_message_content {F = F} (encode_blocks blocks) ≡ kept_blocks blocks
  unfolding read_message_content
  blocks_read [] =
      ap several (read_maps-encode_list read_text_content encode_content kept (content_read F) [])
  blocks_read (block ∷ []) = ap single (content_read F block)
  blocks_read (block ∷ next ∷ rest) = ap several (
      read_maps-encode_list read_text_content encode_content kept (content_read F)
        (block ∷ next ∷ rest))

module _ {F : Type 0} where
  module _ (codec : Params F) (json : Rereads F) (s : Server F) where
    prompt_answered :
        (h : Handled ServerMessage)
        → finish "error: " read_prompt_result
            (received (some (response_of json (reply_of (λ message. messages (message ∷ [])) h))))
          ≡ prompt_answer h
    unfolding finish response_of encode_result encode_list read_prompt_result read_maps
        read_message_entry get_string get_items get
    prompt_answered (value message) =
        ap
          (λ c. got (record {
            description = "";
            messages = record { role = message.role; content = c } ∷ [];
          }))
          (blocks_read F message.content)
    prompt_answered (handler_failed message) = refl

    -- A prompt that the server has, got by a client, is one message with its role and the texts of
    -- its blocks: a single block stands alone and several are a list. The description is not sent,
    -- and of an image or audio only an empty text arrives. For params that the server decodes to the
    -- name that was sent.
    pub get_prompt-served :
        (name : String) (arguments sent : Fields F) (handler : PromptHandler F)
        → codec.get_params (named name arguments) ≡ some (record { name = name; arguments = sent })
        → lookup name s.prompt_table.handlers ≡ some handler
        → get_prompt (served codec json s) name arguments ≡ prompt_answer (handler name sent)
    unfolding get_prompt served reply_to handle_prompts_get unmarshal_params
    get_prompt-served name arguments sent handler decoded found =
        let replied : handle_prompts_get codec (named name arguments) s
            ≡ reply_of (λ message. messages (message ∷ [])) (handler name sent) =
          rw (handle_prompts_get, decoded, found) refl in
        ap (λ r. finish "error: " read_prompt_result (received (some (response_of json r)))) replied
        ∙ prompt_answered (handler name sent)

    -- After Initialize the client knows the name and the version of the server.
    pub initialize-served :
        (c : Client F)
        → initialize (served codec json s) c
          ≡ got (record c {
            server_info = some (record { name = s.info.name; version = s.info.version });
          })
    unfolding initialize served reply_to handle_initialize response_of encode_result finish
        read_server_info get_string get
    initialize-served c = refl

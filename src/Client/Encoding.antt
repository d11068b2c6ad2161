-- ===== src/Client/Encoding.antt =====
-- shared/types.go, server/server.go: the server's results as encoding/json writes them by the tags of
-- the structs, in the form in which it reads them back into an interface{}. `Rereads` is what that
-- makes of the maps and values that are not the SDK's. An empty list is not a nil one here.
use mcp_go_sdk.Prelude.{Bool, true, false, List, [], ◌∷◌, String, ◌==◌, string_Key, if◌then◌else◌}
use mcp_go_sdk.Value.{Value, boolean, str, arr, obj, Items, nil, cons, Fields, end, field}
use mcp_go_sdk.Shared.Types.{
  Content, text, image, audio, Implementation, ServerCapabilities, Resource, Tool, Prompt,
  PromptArgument,
}
use mcp_go_sdk.Server.{
  PromptMessage, Result, initialized, resources, contents, tools, content, prompts, messages,
  custom,
}

pub record Rereads (F : Type 0) : Type 0 where
  pub reread : Fields F → Fields F
  pub reread_value : Value F → Value F
  pub encode_capabilities : ServerCapabilities → Value F

module _ {F : Type 0} where
  -- An entry tagged `omitempty`, before the others
  abbrev pub optional : String → String → Fields F → Fields F
  optional key s m = if s == "" then m else field key (str s) m

  abbrev pub optional_bool : String → Bool → Fields F → Fields F
  optional_bool key false m = m
  optional_bool key true m = field key (boolean true) m

  unfoldable pub encode_list : {A : Type 0} → (A → Fields F) → List A → Items F
  encode_list encode [] = nil
  encode_list encode (a ∷ rest) = cons (obj (encode a)) (encode_list encode rest)

  abbrev pub encode_resource : Resource → Fields F
  encode_resource r = field "uri" (str r.uri) (
      field "name" (str r.name)
        (optional "description" r.description (optional "mimeType" r.mime_type end)))

  abbrev pub encode_argument : PromptArgument → Fields F
  encode_argument a =
      field "name" (str a.name)
        (optional "description" a.description (optional_bool "required" a.required end))

  abbrev pub encode_arguments : List PromptArgument → Fields F
  encode_arguments [] = end
  encode_arguments (a ∷ rest) = field "arguments" (arr (encode_list encode_argument (a ∷ rest))) end

  abbrev pub encode_prompt : Prompt → Fields F
  encode_prompt p =
      field "name" (str p.name)
        (optional "description" p.description (encode_arguments p.arguments))

  abbrev pub encode_content : Content → Fields F
  encode_content (text t uri) =
      field "type" (str "text") (field "text" (str t) (optional "uri" uri end))
  encode_content (image bytes mime) =
      field "type" (str "image") (field "data" (str bytes) (field "mimeType" (str mime) end))
  encode_content (audio bytes mime) =
      field "type" (str "audio") (field "data" (str bytes) (field "mimeType" (str mime) end))

  -- PromptMessage.MarshalJSON: one block stands alone.
  abbrev pub encode_blocks : List Content → Value F
  encode_blocks (block ∷ []) = obj (encode_content block)
  encode_blocks blocks = arr (encode_list encode_content blocks)

  abbrev pub encode_message : PromptMessage → Fields F
  encode_message m = field "role" (str m.role) (field "content" (encode_blocks m.content) end)

  abbrev pub encode_implementation : Implementation → Fields F
  encode_implementation i =
      field "name" (str i.name)
        (field "version" (str i.version) (optional "protocolVersion" i.protocol_version end))

  module _ (json : Rereads F) where
    abbrev pub encode_tool : Tool F → Fields F
    encode_tool t = field "name" (str t.name) (
        optional "description" t.description
          (field "inputSchema" (obj (json.reread t.input_schema)) end))

    abbrev pub one_entry : {A : Type 0} → String → (A → Fields F) → List A → Value F
    one_entry key encode xs = obj (field key (arr (encode_list encode xs)) end)

    unfoldable pub encode_result : Result F → Value F
    unfolding encode_list
    encode_result (initialized version capabilities info) = obj (
        field "protocolVersion" (str version) (
          field "capabilities" (json.encode_capabilities capabilities)
            (field "serverInfo" (obj (encode_implementation info)) end)))
    encode_result (resources rs) = one_entry "resources" encode_resource rs
    encode_result (contents cs) = one_entry "contents" encode_content cs
    encode_result (tools ts) = one_entry "tools" encode_tool ts
    encode_result (content cs) = one_entry "content" encode_content cs
    encode_result (prompts ps) = one_entry "prompts" encode_prompt ps
    encode_result (messages ms) = one_entry "messages" encode_message ms
    encode_result (custom v) = json.reread_value v

-- ===== src/Client.antt =====
-- client/client.go: a client and what it reads of results. `Transport` is its SendRequest together
-- with the select that waits for the response or the end of the context; what a method makes of the
-- result is read from the map that encoding/json decoded.
pub mod Methods
pub mod Encoding
pub mod Reading
pub mod Served
pub mod Prompts
mod Examples
use mcp_go_sdk.Prelude.{Bool, true, false, Option, none, some, List, [], ◌∷◌, String}
use Prim.Native.String.{◌++◌ as str_append}
use mcp_go_sdk.Value.{
  Value, null, boolean, str, arr, obj, Items, nil, cons, Fields, end, field, get, as_string,
}
use mcp_go_sdk.Shared.Message.{Response}
use mcp_go_sdk.Shared.Types.{
  Content, text, Resource, ResourceContent, Tool, Prompt, PromptArgument, latest_protocol_version,
}

pub record ServerInfo : Type 0 where
  pub name : String
  pub version : String

-- The capabilities are in `config` as the map that they are sent as.
pub record ClientConfig (F : Type 0) : Type 0 where
  pub name : String
  pub version : String
  pub capabilities : Value F

pub record Client (F : Type 0) : Type 0 where
  pub server_info : Option ServerInfo
  pub config : ClientConfig F

-- How a request ends for the one who waits: it was not sent, the channel gave a response (none is
-- the nil of a closed channel), or the context ended first, with its error.
pub data Exchange (F : Type 0) : Type 0 where
  not_sent cancelled : String → Exchange F
  received : Option (Response F) → Exchange F

abbrev pub Transport : Type 0 → Type 0
Transport F = String → Value F → Exchange F

-- A result, or the text of an error
pub data Got (A : Type 0) : Type 0 where
  got : A → Got A
  failed : String → Got A

pub record CallToolResult : Type 0 where
  pub content : List Content
  pub is_error : Bool

-- The content of a prompt's message: nil, one block, or several
pub data MessageContent : Type 0 where
  absent : MessageContent
  single : Content → MessageContent
  several : List Content → MessageContent

pub record PromptMessage : Type 0 where
  pub role : String
  pub content : MessageContent

pub record GetPromptResult : Type 0 where
  pub description : String
  pub messages : List PromptMessage

-- New
unfoldable pub new_client : {F : Type 0} → Client F
new_client = record {
  server_info = none;
  config = record { name = "mcp-go-client"; version = "1.0.0"; capabilities = obj end };
}

abbrev pub or_else {ℓ} : {A : Type ℓ} → Option A → Option A → Option A
or_else none before = before
or_else (some a) before = some a

module _ {F : Type 0} where
  -- The string under a key, or ""
  unfoldable pub get_string : String → Fields F → String
  get_string key m = elim (get key m) [
    | none ↦ ""
    | some v ↦ elim (as_string v) [ none ↦ "" | some s ↦ s ]
  ]

  -- The same of a bool, and of the items of a list
  abbrev pub as_bool : Value F → Bool
  as_bool (boolean b) = b
  as_bool _ = false

  unfoldable pub get_bool : String → Fields F → Bool
  get_bool key m = elim (get key m) [ none ↦ false | some v ↦ as_bool v ]

  abbrev pub as_items : Value F → Items F
  as_items (arr items) = items
  as_items _ = nil

  unfoldable pub get_items : String → Fields F → Items F
  get_items key m = elim (get key m) [ none ↦ nil | some v ↦ as_items v ]

  -- What is read of the items that are maps; the others are left out.
  unfoldable pub read_maps : {A : Type 0} → (Fields F → A) → Items F → List A
  read_maps read nil = []
  read_maps read (cons (obj m) rest) = read m ∷ read_maps read rest
  read_maps read (cons _ rest) = read_maps read rest

  -- A result that is not a map is read as one without entries.
  abbrev pub as_map : Value F → Fields F
  as_map (obj m) = m
  as_map _ = end

  unfoldable pub get_map : String → Fields F → Fields F
  get_map key m = elim (get key m) [ none ↦ end | some v ↦ as_map v ]

  unfoldable pub read_resource_entry : Fields F → Resource
  unfolding get_string
  read_resource_entry m = record {
    uri = get_string "uri" m;
    name = get_string "name" m;
    description = get_string "description" m;
    mime_type = get_string "mimeType" m;
  }

  unfoldable pub read_contents_entry : Fields F → ResourceContent
  unfolding get_string
  read_contents_entry m = record {
    uri = get_string "uri" m;
    mime_type = get_string "mimeType" m;
    text = get_string "text" m;
    blob = get_string "blob" m;
  }

  unfoldable pub read_tool_entry : Fields F → Tool F
  unfolding get_string get_map
  read_tool_entry m = record {
    name = get_string "name" m;
    description = get_string "description" m;
    input_schema = get_map "inputSchema" m;
  }

  -- Every block is read as a text, whatever its type.
  unfoldable pub read_text_content : Fields F → Content
  unfolding get_string
  read_text_content m = text (get_string "text" m) (get_string "uri" m)

  unfoldable pub read_argument_entry : Fields F → PromptArgument
  unfolding get_string get_bool
  read_argument_entry m = record {
    name = get_string "name" m;
    description = get_string "description" m;
    required = get_bool "required" m;
  }

  unfoldable pub read_prompt_entry : Fields F → Prompt
  unfolding get_string get_items read_maps read_argument_entry
  read_prompt_entry m = record {
    name = get_string "name" m;
    description = get_string "description" m;
    arguments = read_maps read_argument_entry (get_items "arguments" m);
  }

  unfoldable pub read_message_content : Value F → MessageContent
  unfolding read_maps read_text_content
  read_message_content (str s) = single (text s "")
  read_message_content (obj m) = single (read_text_content m)
  read_message_content (arr items) = several (read_maps read_text_content items)
  read_message_content _ = absent

  unfoldable pub read_message_entry : Fields F → PromptMessage
  unfolding get_string read_message_content
  read_message_entry m = record {
    role = get_string "role" m;
    content = elim (get "content" m) [ none ↦ absent | some v ↦ read_message_content v ];
  }

  unfoldable pub read_tool_result : Fields F → CallToolResult
  unfolding get_items get_bool read_maps read_text_content
  read_tool_result m = record {
    content = read_maps read_text_content (get_items "content" m);
    is_error = get_bool "isError" m;
  }

  unfoldable pub read_prompt_result : Fields F → GetPromptResult
  unfolding get_string get_items read_maps read_message_entry
  read_prompt_result m = record {
    description = get_string "description" m;
    messages = read_maps read_message_entry (get_items "messages" m);
  }

  -- The end of a method, once its request was sent; `prefix` begins the text of an error response.
  unfoldable pub finish : {A : Type 0} → String → (Fields F → A) → Exchange F → Got A
  finish prefix read (not_sent problem) = failed problem
  finish prefix read (cancelled problem) = failed problem
  finish prefix read (received none) = failed "no response received"
  finish prefix read (received (some response)) = elim response.error [
    | some e ↦ failed (str_append prefix e.message)
    | none ↦ got (read (as_map response.result))
  ]

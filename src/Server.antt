-- ===== src/Server.antt =====
-- server/server.go: the state of a server. The messages that it hands to the transport are the list
-- `sent`; handlers are functions that the user of the SDK supplies, with what a handler reads from
-- its context as an argument.
pub mod ResourceTemplate
pub mod Registration
pub mod Handlers
pub mod Consistency
pub mod Calls
pub mod Reads
pub mod Methods
pub mod Notices
pub mod Workers
pub mod Resources
pub mod Tools
pub mod Templates
mod Examples
mod RegistryExamples
mod TemplateExamples
use mcp_go_sdk.Prelude.{ℕ, Bool, true, false, ◌||◌, Option, none, some, List, [], ◌∷◌, String}
use mcp_go_sdk.Prelude.{string_Key, if◌then◌else◌, is_some, ◌==◌}
use mcp_go_sdk.Prelude.Dict.{Dict, lookup, insert, erase}
use mcp_go_sdk.Value.{Value, Fields}
use mcp_go_sdk.Shared.Message.{Request, RpcError}
use mcp_go_sdk.Shared.Types.{
  Implementation, ServerCapabilities, Content, Resource, Tool, Prompt, PromptArgument,
}

-- What a handler returns: a value, or an error by its text.
pub data Handled (A : Type 0) : Type 0 where
  value : A → Handled A
  failed : String → Handled A

pub record PromptMessage : Type 0 where
  pub role : String
  pub content : List Content

-- The progress token is the one thing that the server adds to a handler's context.
pub record Context (F : Type 0) : Type 0 where
  pub progress_token : Option (Value F)

-- The handlers and the metadata of one kind, which the source keeps in two maps under one lock.
pub record Table (H M : Type 0) : Type 0 where
  pub handlers : Dict String H
  pub metadata : Dict String M

abbrev pub ResourceHandler : Type 0
ResourceHandler = String → Handled (List Content)

abbrev pub ToolHandler : Type 0 → Type 0
ToolHandler F = Context F → String → Fields F → Handled (List Content)

abbrev pub PromptHandler : Type 0 → Type 0
PromptHandler F = String → Fields F → Handled PromptMessage

abbrev pub HandlerFunc : Type 0 → Type 0
HandlerFunc F = Value F → Handled (Value F)

-- The results of the built-in methods, before they are marshalled.
pub data Result (F : Type 0) : Type 0 where
  initialized : String → ServerCapabilities → Implementation → Result F
  resources : List Resource → Result F
  contents : List Content → Result F
  tools : List (Tool F) → Result F
  content : List Content → Result F
  prompts : List Prompt → Result F
  messages : List PromptMessage → Result F
  custom : Value F → Result F

-- `interface{}, *RPCError`: one of the two is nil.
pub data Reply (F : Type 0) : Type 0 where
  result : Result F → Reply F
  error : RpcError F → Reply F

pub data Outgoing (F : Type 0) : Type 0 where
  response : Value F → Reply F → Outgoing F
  notification : String → Outgoing F

pub record Server (F : Type 0) : Type 0 where
  pub info : Implementation
  pub capabilities : ServerCapabilities
  pub resource_table : Table ResourceHandler Resource
  pub tool_table : Table (ToolHandler F) (Tool F)
  pub prompt_table : Table (PromptHandler F) Prompt
  pub request_handlers : Dict String (HandlerFunc F)
  pub sent : List (Outgoing F)
  pub max_concurrent_requests : ℕ
  pub request_timeout : ℕ
  pub done : Bool

pub record ServerConfig : Type 0 where
  pub name : String
  pub version : String
  pub max_concurrent_requests : ℕ
  pub request_timeout : ℕ
  pub capabilities : ServerCapabilities

abbrev pub empty_table : {H M : Type 0} → Table H M
empty_table = record { handlers = []; metadata = [] }

-- ===== src/Shared/Types.antt =====
-- shared/types.go: what servers offer and what they say of themselves.
use mcp_go_sdk.Prelude.{Bool, Option, List, String}
use mcp_go_sdk.Value.{Fields}

pub record Implementation : Type 0 where
  pub name : String
  pub version : String
  pub protocol_version : String

-- The capabilities structs of the source hold the flags below; a nil pointer is `none`.
pub record ResourcesCapability : Type 0 where
  pub subscribe : Bool
  pub list_changed : Bool

pub record ToolsCapability : Type 0 where
  pub list_changed : Bool

pub record PromptsCapability : Type 0 where
  pub list_changed : Bool

pub record ServerCapabilities : Type 0 where
  pub logging : Bool
  pub prompts : Option PromptsCapability
  pub resources : Option ResourcesCapability
  pub tools : Option ToolsCapability
  pub completions : Bool

pub data Content : Type 0 where
  text : String → String → Content
  image : String → String → Content
  audio : String → String → Content

pub record Resource : Type 0 where
  pub uri : String
  pub name : String
  pub description : String
  pub mime_type : String

pub record Tool (F : Type 0) : Type 0 where
  pub name : String
  pub description : String
  pub input_schema : Fields F

pub record PromptArgument : Type 0 where
  pub name : String
  pub description : String
  pub required : Bool

pub record Prompt : Type 0 where
  pub name : String
  pub description : String
  pub arguments : List PromptArgument

abbrev pub latest_protocol_version : String
latest_protocol_version = "2024-11-05"

pub record ResourceContent : Type 0 where
  pub uri : String
  pub mime_type : String
  pub text : String
  pub blob : String

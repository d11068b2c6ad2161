-- ===== src/Server/Tools/Steps.antt =====
-- server/registry.go: the operations of a ToolRegistry as the steps of a run. The executions whose
-- handler runs are the list `active`, and `ends i` lets the i-th of them end.
use mcp_go_sdk.Prelude.{ℕ, Bool, Option, none, some, List, [], ◌∷◌, ◌++◌, String, string_Key}
use mcp_go_sdk.Prelude.Choice.{pick}
use mcp_go_sdk.Value.{Fields}
use mcp_go_sdk.Server.Tools.{
  ToolRegistry, ToolEntry, Runner, Execution, executing, tools_register, execute_begin, execute_end,
}

pub record Running (F W : Type 0) : Type 0 where
  pub name : String
  pub arguments : Fields F
  pub entry : ToolEntry F W

pub record Executions (F W : Type 0) : Type 0 where
  pub registry : ToolRegistry F W
  pub active : List (Running F W)

pub data ToolCall (F W : Type 0) : Type 0 where
  registers : ℕ → String → String → Fields F → Runner F W → ToolCall F W
  begins : String → Fields F → Bool → ToolCall F W
  ends : ℕ → ℕ → W → ℕ → ToolCall F W

module _ {F W : Type 0} where
  unfoldable pub begun :
      String → Fields F → ToolRegistry F W × Execution F W → Executions F W → Executions F W
  begun name arguments (tr, executing entry) st = record {
    registry = tr;
    active = st.active ++ record { name = name; arguments = arguments; entry = entry } ∷ [];
  }
  begun name arguments (tr, _) st = record st { registry = tr }

  unfoldable pub ended :
      ℕ → ℕ → W → Option (Running F W × List (Running F W)) → Executions F W → Executions F W
  ended now spent world none st = st
  ended now spent world (some (r, rest)) st = record {
    registry = (execute_end now spent world r.name r.arguments r.entry st.registry).0;
    active = rest;
  }

  unfoldable pub tool_step : ToolCall F W → Executions F W → Executions F W
  unfolding begun ended
  tool_step (registers now name description input_schema handler) st = record st {
    registry = tools_register now name description input_schema handler st.registry;
  }
  tool_step (begins name arguments aborts) st =
      begun name arguments (execute_begin name aborts st.registry) st
  tool_step (ends now spent world i) st = ended now spent world (pick i st.active) st

  unfoldable pub tool_run : List (ToolCall F W) → Executions F W → Executions F W
  tool_run [] st = st
  tool_run (c ∷ cs) st = tool_run cs (tool_step c st)

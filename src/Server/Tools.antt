-- ===== src/Server/Tools.antt =====
-- server/registry.go: ToolRegistry. Execute runs its handler outside the locks, so it is two
-- operations: `execute_begin` up to the call of the handler and `execute_end` behind it. A handler
-- reads a part `W` of the world besides its arguments; `spent` is the time that it took.
pub mod Steps
pub mod Tally
use mcp_go_sdk.Prelude.{
  ℕ, ◌+◌, ◌*◌, ◌-◌, ◌/◌, Bool, true, false, Option, none, some, List, [], ◌∷◌, String, string_Key,
  nat_Key, if◌then◌else◌, ltb, ◌==◌, map,
}
use mcp_go_sdk.Prelude.Dict.{Dict, lookup, insert, values}
use mcp_go_sdk.Value.{Fields}
use mcp_go_sdk.Shared.Types.{Tool, Content}
use mcp_go_sdk.Server.{Handled, value, failed}

abbrev pub Runner : Type 0 → Type 0 → Type 0
Runner F W = W → String → Fields F → Handled (List Content)

pub record ToolEntry (F W : Type 0) : Type 0 where
  pub tool : Tool F
  pub handler : Runner F W
  pub execution_count : ℕ
  pub last_executed : ℕ
  pub average_exec_time : ℕ

pub record ToolExecutionStats : Type 0 where
  pub execution_count : ℕ
  pub total_time : ℕ
  pub average_time : ℕ
  pub error_count : ℕ
  pub last_executed : ℕ

pub record ToolRegistry (F W : Type 0) : Type 0 where
  pub tools : Dict String (ToolEntry F W)
  pub handlers : Dict String (Runner F W)
  pub max_concurrent_executions : ℕ
  pub execution_timeout : ℕ
  pub worker_pool : ℕ
  pub execution_stats : Dict String ToolExecutionStats

-- How far an execution comes before it calls the handler.
pub data Execution (F W : Type 0) : Type 0 where
  not_found : Execution F W
  waits : Execution F W
  cancelled : Execution F W
  executing : ToolEntry F W → Execution F W

abbrev pub no_executions : ToolExecutionStats
no_executions = record {
  execution_count = 0;
  total_time = 0;
  average_time = 0;
  error_count = 0;
  last_executed = 0;
}

-- One more execution in the statistics of a tool.
unfoldable pub count_execution : ℕ → ℕ → Bool → ToolExecutionStats → ToolExecutionStats
count_execution now spent is_error stats = record {
  execution_count = stats.execution_count + 1;
  total_time = stats.total_time + spent;
  average_time = (stats.total_time + spent) / (stats.execution_count + 1);
  error_count = if is_error then stats.error_count + 1 else stats.error_count;
  last_executed = now;
}

unfoldable pub is_failed : Handled (List Content) → Bool
is_failed (value content) = false
is_failed (failed e) = true

module _ {F W : Type 0} where
  unfoldable pub new_tool_registry : ℕ → ℕ → ToolRegistry F W
  new_tool_registry max_concurrent_executions execution_timeout =
      let workers = if max_concurrent_executions == 0 then 20 else max_concurrent_executions in
      record {
        tools = [];
        handlers = [];
        max_concurrent_executions = workers;
        execution_timeout =
            if execution_timeout == 0 then 30 * 1_000_000_000 else execution_timeout;
        worker_pool = workers;
        execution_stats = [];
      }

  unfoldable pub tools_register :
      ℕ → String → String → Fields F → Runner F W → ToolRegistry F W → ToolRegistry F W
  tools_register now name description input_schema handler tr =
      let entry : ToolEntry F W = record {
        tool = record { name = name; description = description; input_schema = input_schema };
        handler = handler;
        execution_count = 0;
        last_executed = now;
        average_exec_time = 0;
      } in
      record tr {
        tools = insert name entry tr.tools;
        handlers = insert name handler tr.handlers;
        execution_stats = insert name no_executions tr.execution_stats;
      }

  unfoldable pub tools_list : ToolRegistry F W → List (Tool F)
  tools_list tr = map (λ entry. entry.tool) (values tr.tools)

  -- The entry of a tool shows its statistics.
  unfoldable pub show_stats :
      String → ToolExecutionStats → Dict String (ToolEntry F W) → Dict String (ToolEntry F W)
  show_stats name stats tools = elim (lookup name tools) [
    | none ↦ tools
    | some entry ↦
        insert name
          (record entry {
            execution_count = stats.execution_count;
            last_executed = stats.last_executed;
            average_exec_time = stats.average_time;
          })
          tools
  ]

  unfoldable pub update_execution_stats :
      ℕ → String → ℕ → Bool → ToolRegistry F W → ToolRegistry F W
  unfolding count_execution show_stats
  update_execution_stats now name spent is_error tr = elim (lookup name tr.execution_stats) [
    | none ↦ tr
    | some stats ↦
        let counted = count_execution now spent is_error stats in
        record tr {
          execution_stats = insert name counted tr.execution_stats;
          tools = show_stats name counted tr.tools;
        }
  ]

  -- `aborts` says that the select takes the case of a context that has ended.
  unfoldable pub execute_begin : String → Bool → ToolRegistry F W → ToolRegistry F W × Execution F W
  execute_begin name aborts tr = elim (lookup name tr.tools) [
    | none ↦ (tr, not_found)
    | some entry ↦
        if aborts
        then (tr, cancelled)
        else if ltb 0 tr.worker_pool
        then (record tr { worker_pool = tr.worker_pool - 1 }, executing entry)
        else (tr, waits)
  ]

  -- The handler has returned: the statistics are updated and the token goes back.
  unfoldable pub execute_end :
      ℕ
      → ℕ
      → W
      → String
      → Fields F
      → ToolEntry F W
      → ToolRegistry F W
      → ToolRegistry F W × Handled (List Content)
  unfolding update_execution_stats is_failed
  execute_end now spent world name arguments entry tr =
      let outcome = entry.handler world name arguments in
      let counted = update_execution_stats now name spent (is_failed outcome) tr in
      (record counted { worker_pool = counted.worker_pool + 1 }, outcome)

  unfoldable pub tools_get_stats : ToolRegistry F W → Dict String ToolExecutionStats
  tools_get_stats tr = tr.execution_stats

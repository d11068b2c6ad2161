-- ===== src/Server/Tools/Tally.antt =====
-- server/registry.go: what holds of a ToolRegistry and its statistics after any sequence of its
-- operations.
use mcp_go_sdk.Prelude.{
  ℕ, ◌+◌, ◌/◌, ◌≤◌, ◌≡◌, ◌≢◌, refl, ap, ◌∙◌, Bool, true, false, Option, none, some, List, [], ◌∷◌,
  String, string_Key, ltb, ltb→lt, arith, ◌==◌, Option-cases, Bool-cases, inl, inr, length,
  length-append, if_elim, subst,
}
use mcp_go_sdk.Prelude.Choice.{pick, length-pick}
use mcp_go_sdk.Prelude.Dict.{
  Dict, lookup, insert, lookup-insert, lookup-insert_self, lookup-insert_ne,
}
use mcp_go_sdk.Value.{Fields}
use mcp_go_sdk.Shared.Types.{Content}
use mcp_go_sdk.Server.{Handled, value, failed}
use mcp_go_sdk.Server.Tools.{
  ToolRegistry, ToolEntry, ToolExecutionStats, Runner, Execution, count_execution, show_stats,
  update_execution_stats, tools_register, execute_begin, execute_end, is_failed, tools_get_stats,
  new_tool_registry,
}
use mcp_go_sdk.Server.Tools.Steps.{
  Running, Executions, ToolCall, registers, begins, ends, begun, ended, tool_step, tool_run,
}

count_execution-errors :
    (now spent : ℕ) (is_error : Bool) (stats : ToolExecutionStats)
    → stats.error_count ≤ stats.execution_count
    → (count_execution now spent is_error stats).error_count ≤ stats.execution_count + 1
unfolding count_execution
count_execution-errors now spent true stats le = omega arith
count_execution-errors now spent false stats le = omega arith

count_execution-outcome :
    (now spent : ℕ) (outcome : Handled (List Content)) (stats : ToolExecutionStats)
    → count_execution now spent (is_failed outcome) stats ≡ record {
      execution_count = stats.execution_count + 1;
      total_time = stats.total_time + spent;
      average_time = (stats.total_time + spent) / (stats.execution_count + 1);
      error_count = elim outcome [
        | value content ↦ stats.error_count
        | failed e ↦ stats.error_count + 1
      ];
      last_executed = now;
    }
unfolding count_execution is_failed
count_execution-outcome now spent (value content) stats = refl
count_execution-outcome now spent (failed e) stats = refl

module _ {F W : Type 0} where
  -- The entry of a tool and its statistics agree, and the statistics are those of some executions.
  abbrev pub Agrees : Option (ToolEntry F W) → Option ToolExecutionStats → Type 0
  Agrees none none = Unit
  Agrees (some entry) (some stats) =
      (entry.execution_count ≡ stats.execution_count)
      × (entry.average_exec_time ≡ stats.average_time)
      × (stats.error_count ≤ stats.execution_count)
      × (stats.average_time ≡ stats.total_time / stats.execution_count)
  Agrees _ _ = ⊥

  abbrev pub IsTallied : Dict String (ToolEntry F W) → Dict String ToolExecutionStats → Type 0
  IsTallied tools stats = (name : String) → Agrees (lookup name tools) (lookup name stats)

  abbrev pub IsSound : ℕ → ToolRegistry F W → Type 0
  IsSound busy tr =
      IsTallied tr.tools tr.execution_stats × (tr.worker_pool + busy ≡ tr.max_concurrent_executions)

  insert-IsTallied :
      (name : String) (entry : ToolEntry F W) (stats : ToolExecutionStats)
      (tools : Dict String (ToolEntry F W)) (all : Dict String ToolExecutionStats)
      → IsTallied tools all
      → Agrees (some entry) (some stats)
      → IsTallied (insert name entry tools) (insert name stats all)
  insert-IsTallied name entry stats tools all v own u =
      rw (lookup-insert name u entry tools, lookup-insert name u stats all)
        (elim (Bool-cases (name == u)) [ inl hit ↦ rw hit own | inr miss ↦ rw miss (v u) ])

  Agrees-entry :
      (name : String) (stats : ToolExecutionStats) (tools : Dict String (ToolEntry F W))
      → Agrees (lookup name tools) (some stats)
      → (entry : ToolEntry F W) × (lookup name tools ≡ some entry)
        × (stats.error_count ≤ stats.execution_count)
  Agrees-entry name stats tools v = elim (Option-cases (lookup name tools)) [
    | inl gone ↦ absurd (rw gone at v)
    | inr (entry, held) ↦ let (a, b, c, d) = rw held at v in (entry, held, c)
  ]

  update_execution_stats-IsSound :
      (now : ℕ) (name : String) (spent : ℕ) (is_error : Bool) (busy : ℕ) (tr : ToolRegistry F W)
      → IsSound busy tr
      → IsSound busy (update_execution_stats now name spent is_error tr)
  unfolding update_execution_stats show_stats count_execution
  update_execution_stats-IsSound now name spent is_error busy tr (v, pool) =
      elim (Option-cases (lookup name tr.execution_stats)) [
        | inl gone ↦ rw (update_execution_stats, gone) (v, pool)
        | inr (stats, held) ↦
            let (entry, at_name, le) =
              Agrees-entry name stats tr.tools
                (subst (λ o. Agrees (lookup name tr.tools) o) held (v name)) in
            rw (update_execution_stats, held, show_stats, at_name)
              (
                insert-IsTallied name _ _ tr.tools tr.execution_stats v
                    (refl, refl, count_execution-errors now spent is_error stats le, refl),
                pool,
              )
      ]

  tools_register-IsSound :
      (now : ℕ) (name description : String) (input_schema : Fields F) (handler : Runner F W)
      (busy : ℕ) (tr : ToolRegistry F W)
      → IsSound busy tr
      → IsSound busy (tools_register now name description input_schema handler tr)
  unfolding tools_register
  tools_register-IsSound now name description input_schema handler busy tr (v, pool) = (
    insert-IsTallied name _ _ tr.tools tr.execution_stats v (refl, refl, omega arith, refl),
    pool,
  )

  abbrev pub IsRun : Executions F W → Type 0
  IsRun st = IsSound (length st.active) st.registry

  begun-IsRun :
      (name : String) (arguments : Fields F) (aborts : Bool) (st : Executions F W)
      → IsRun st
      → IsRun (begun name arguments (execute_begin name aborts st.registry) st)
  unfolding execute_begin begun
  begun-IsRun name arguments aborts st (v, pool) =
      let P : ToolRegistry F W × Execution F W → Type 0 =
        (λ r. IsRun (begun name arguments r st)) in
      elim (Option-cases (lookup name st.registry.tools)) [
        | inl gone ↦ rw (execute_begin, gone) (v, pool)
        | inr (entry, held) ↦
            rw (execute_begin, held)
              (if_elim P aborts _ _ (λ _. (v, pool))
                (λ _.
                  if_elim P (ltb 0 st.registry.worker_pool) _ _
                    (λ free.
                      let positive = ltb→lt 0 st.registry.worker_pool free in
                      let r : Running F W = record {
                        name = name;
                        arguments = arguments;
                        entry = entry;
                      } in
                      (v, omega (arith, length-append st.active (r ∷ []))))
                    (λ _. (v, pool))))
      ]

  ended-IsRun :
      (now spent : ℕ) (world : W) (i : ℕ) (st : Executions F W)
      → IsRun st
      → IsRun (ended now spent world (pick i st.active) st)
  unfolding ended execute_end
  ended-IsRun now spent world i st k = elim (Option-cases (pick i st.active)) [
    | inl none_left ↦ rw none_left k
    | inr ((r, rest), found) ↦
        let (v, pool) =
          update_execution_stats-IsSound now r.name spent
            (is_failed (r.entry.handler world r.name r.arguments)) (length st.active) st.registry
            k in
        rw found (v, omega (arith, length-pick i st.active (r, rest) found))
  ]

  tool_step-IsRun : (c : ToolCall F W) (st : Executions F W) → IsRun st → IsRun (tool_step c st)
  unfolding tool_step
  tool_step-IsRun (registers now name description input_schema handler) st k =
      tools_register-IsSound now name description input_schema handler (length st.active)
        st.registry k
  tool_step-IsRun (begins name arguments aborts) st k = begun-IsRun name arguments aborts st k
  tool_step-IsRun (ends now spent world i) st k = ended-IsRun now spent world i st k

  tool_run-IsRun_from :
      (cs : List (ToolCall F W)) (st : Executions F W) → IsRun st → IsRun (tool_run cs st)
  unfolding tool_run
  tool_run-IsRun_from [] st k = k
  tool_run-IsRun_from (c ∷ cs) st k =
      tool_run-IsRun_from cs (tool_step c st) (tool_step-IsRun c st k)

  -- After any sequence of registrations and of executions that begin and end, a new registry has
  -- statistics for exactly the tools that it has entries for; both show the same count and average,
  -- no tool has more errors than executions, the average is the total time over the count, and the
  -- free tokens and the running executions make up the configured number.
  pub tool_run-IsRun :
      (workers timeout : ℕ) (cs : List (ToolCall F W))
      → IsRun (tool_run cs (record { registry = new_tool_registry workers timeout; active = [] }))
  unfolding new_tool_registry lookup
  tool_run-IsRun workers timeout cs =
      tool_run-IsRun_from cs (record { registry = new_tool_registry workers timeout; active = [] })
        (λ name. tt, omega arith)

  updated :
      (now : ℕ) (name : String) (spent : ℕ) (is_error : Bool) (stats : ToolExecutionStats)
      (tr : ToolRegistry F W)
      → lookup name tr.execution_stats ≡ some stats
      → (update_execution_stats now name spent is_error tr).execution_stats
        ≡ insert name (count_execution now spent is_error stats) tr.execution_stats
  unfolding update_execution_stats
  updated now name spent is_error stats tr held = rw (update_execution_stats, held) refl

  -- An execution that ends is counted in the statistics of its tool, as an error where its handler
  -- failed, with the time that it took, and in no other tool's; the caller gets what the handler
  -- returned.
  pub execute_end-tools_get_stats :
      (now spent : ℕ) (world : W) (name other : String) (arguments : Fields F)
      (entry : ToolEntry F W) (stats : ToolExecutionStats) (tr : ToolRegistry F W)
      → lookup name (tools_get_stats tr) ≡ some stats
      → name ≢ other
      → let (g, outcome) = execute_end now spent world name arguments entry tr in
        (outcome ≡ entry.handler world name arguments)
        × (lookup name (tools_get_stats g)
            ≡ some (record {
              execution_count = stats.execution_count + 1;
              total_time = stats.total_time + spent;
              average_time = (stats.total_time + spent) / (stats.execution_count + 1);
              error_count = elim (entry.handler world name arguments) [
                | value content ↦ stats.error_count
                | failed e ↦ stats.error_count + 1
              ];
              last_executed = now;
            }))
        × (lookup other (tools_get_stats g) ≡ lookup other (tools_get_stats tr))
  unfolding execute_end tools_get_stats
  execute_end-tools_get_stats now spent world name other arguments entry stats tr held ne =
      let outcome = entry.handler world name arguments in
      let after = updated now name spent (is_failed outcome) stats tr held in
      (
        refl,
        ap (lookup name) after
            ∙ lookup-insert_self name _ tr.execution_stats
            ∙ ap some (count_execution-outcome now spent outcome stats),
        ap (lookup other) after ∙ lookup-insert_ne name other _ tr.execution_stats ne,
      )

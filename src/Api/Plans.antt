-- ===== src/Api/Plans.antt =====
-- The registry's chains, and the plan of a run (backend/app/api/routes_chains.py).
use agent_analysis.Prelude.{String, false, List, none, some, if◌then◌else◌}
use agent_analysis.Schemas.Constants.{run_type_value}
use agent_analysis.Schemas.GateResult.{GateResult, of, passed}
use agent_analysis.Schemas.Json.{Value, bool, text, array, object, end, field, texts}
use agent_analysis.Schemas.Chain.{
  ChainExecutionResult, ChainRequest, canonical_violations, task_type_value,
}
use agent_analysis.Chains.Registry.{ChainDefinition, chain_definitions, find_chain, resolve_chain}
use agent_analysis.Runtime.Workspace.{RunAttempt}
use agent_analysis.Api.Records.{RunRecord, Repository, save, get}
use agent_analysis.Api.Runs.{Reply, Detail, not_found}

unfoldable pub list_chains : List ChainDefinition
list_chains = chain_definitions

unfoldable pub get_chain : String → Reply ChainDefinition
get_chain chain_id = elim (find_chain chain_id chain_definitions) [
  | none ↦ Reply.http_error 404 (Detail.message "chain not found")
  | some d ↦ Reply.ok d
]

gate_value : GateResult → Value
gate_value g = object (
    field "gate_name" (text g.gate_name) (
      field "status" (text (if passed g then "PASS" else "FAIL")) (
        field "reasons" (array (texts g.reasons))
          (field "required_corrections" (array (texts g.required_corrections)) end))))

-- The plan that is stored and returned.
unfoldable pub plan_of : String → ChainRequest → Value
unfolding gate_value
plan_of run_id request =
    let envelope = gate_value (of "chain_envelope" (canonical_violations request)) in
    elim (resolve_chain (task_type_value request.task_type)) [
      | none ↦ object (
          field "run_id" (text run_id) (
            field "task_type" (text (task_type_value request.task_type)) (
              field "final_status" (text "BLOCKED") (
                field "reason" (text "unknown task_type has no registered chain")
                  (field "envelope_gate" envelope end)))))
      | some chain ↦ object (
          field "run_id" (text run_id) (
            field "task_type" (text (task_type_value request.task_type)) (
              field "chain_id" (text chain.chain_id) (
                field "mode" (text (run_type_value chain.mode)) (
                  field "handler_names" (array (texts chain.handler_names)) (
                    field "envelope_gate" envelope (
                      field "execution"
                        (text "deferred: chain execution requires runners + a checkout")
                        (field "auto_merge" (bool false)
                          (field "auto_deploy" (bool false) end)))))))))
    ]

unfoldable pub plan_chain : String → ChainRequest → Repository → Reply Value × Repository
plan_chain run_id request repo = elim (get run_id repo) [
  | none ↦ (not_found, repo)
  | some r ↦
      let result = plan_of run_id request in
      (Reply.ok result, save (record r { chain_result = some result }) repo)
]

-- What a run has to show: the result of its execution, or else its plan.
pub data ChainResults : Type 0 where
  executed : ChainExecutionResult → ChainResults
  planned : Value → ChainResults

results_of : RunRecord → Reply ChainResults
results_of r = elim r.chain_execution_result [
  | some result ↦ Reply.ok (ChainResults.executed result)
  | none ↦ elim r.chain_result [
    | some plan ↦ Reply.ok (ChainResults.planned plan)
    | none ↦ Reply.http_error 404 (Detail.message "no chain planned or executed for this run")
  ]
]

unfoldable pub get_chain_results : String → Repository → Reply ChainResults
unfolding results_of
get_chain_results run_id repo = elim (get run_id repo) [ none ↦ not_found | some r ↦ results_of r ]

unfoldable pub get_run_attempts : String → Repository → Reply (List RunAttempt)
get_run_attempts run_id repo = elim (get run_id repo) [
  | none ↦ not_found
  | some r ↦ Reply.ok r.attempts
]

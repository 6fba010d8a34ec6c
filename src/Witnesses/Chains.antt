-- ===== src/Witnesses/Chains.antt =====
-- Chain runs on concrete data.
use agent_analysis.Prelude.{
  ◌≡◌, ◌==◌, refl, sym, subst, String, true, false, List, [], ◌∷◌, none, some, Memᴰ, if◌then◌else◌,
  any, map, pos, arith,
}
use agent_analysis.Schemas.Constants.{Decision, RunType}
use agent_analysis.Schemas.Json.{end}
use agent_analysis.Schemas.Chain.{
  TaskType, HandlerType, HandlerDecision, FinalStatus, ChainExecutionResult, task_type_value,
  canonical_violations,
}
use agent_analysis.Storage.ArtifactStore.{ArtifactStore, write}
use agent_analysis.Storage.EvidenceWriter.{append, append_artifact}
use agent_analysis.Runtime.Workspace.{resolve, allocate}
use agent_analysis.Api.Records.{RunRecord, get}
use agent_analysis.Api.Runs.{Reply, new_record}
use agent_analysis.Api.Chains.{
  RuntimeSettings, Disk, admit, identity_mismatch, attempt_run, execute_attempt, execute_chain,
}
use agent_analysis.Api.Chains.Identity.{IsAttempted, execute_chain-run_id}
use agent_analysis.Tools.{
  Outcome, Tool, ToolResult, ToolStatus, PolicyDecision, without_artifact, get_tool, decide,
  run_allowed, run_tool,
}
use agent_analysis.Tools.Controlled.{IsControlledRun, run_tool-controlled}
use agent_analysis.Chains.Registry.Routing.{IsRouted, resolve_chain_total}
use agent_analysis.Chains.Context.{ChainContext, record_artifact}
use agent_analysis.Chains.Registry.{ChainDefinition, ai_readiness_audit_chain, resolve_chain}
use agent_analysis.Chains.Executor.{
  execute, blocked_result, run_chain, loop, start, visit, run_handler, settle, finish,
}
use agent_analysis.Chains.Rounds.{
  conclude, next_pr_status, enforce_no_repo_mutation, decide_final_status, set_verifier_decision,
  write_checkpoint,
}
use agent_analysis.Chains.Executor.Verdict.{
  verdict, outcome, is_failing, is_blocking, IsModest, execute-verdict,
}
use agent_analysis.Chains.Executor.Pass.{HasPassingVerifier, execute_pass}
use agent_analysis.Chains.Executor.Order.{IsNamed, IsWalk, execute-IsWalk}
use agent_analysis.Handlers.Authority.{can_modify_repo, can_decide_pass}
use agent_analysis.Handlers.Base.{Handler, HandlerRegistry, ok_result, find_handler}
use agent_analysis.Witnesses.Samples.{os, paths, manifest, request}

-- A handler for each name of the audit chain: a verifier where the chain has one, and every result
-- is a pass.
abbrev type_of : String → HandlerType
type_of name =
    if name == "AnalysisVerifierHandler" then HandlerType.verifier else HandlerType.pure_check

abbrev passing_handler : String → Handler
passing_handler name = record {
  name = name;
  handler_type = type_of name;
  can_handle = λ request. true;
  handle = λ request c. some (
    ok_result (record { name = name; handler_type = type_of name }) HandlerDecision.go_on [] [] end,
    c,
  );
}

abbrev registry : HandlerRegistry
registry = map passing_handler ai_readiness_audit_chain.handler_names

passing_handler-IsModest :
    (name : String) → IsModest (passing_handler name) × IsNamed (passing_handler name)
unfolding ok_result
passing_handler-IsModest name = (
  record { keeps = λ request c c' result e. ground arith },
  record { named = λ request c c' result e. ground arith },
)

all-IsModest :
    (names : List String) (h : Handler)
    → Memᴰ h (map passing_handler names)
    → IsModest h × IsNamed h
all-IsModest [] h m = elim m [ ]
all-IsModest (n ∷ names) h (Memᴰ.head e) =
    subst (λ k. IsModest k × IsNamed k) (sym e) (passing_handler-IsModest n)
all-IsModest (n ∷ names) h (Memᴰ.tail m) = all-IsModest names h m

registry-IsModest : (h : Handler) → Memᴰ h registry → IsModest h
registry-IsModest h m = (all-IsModest ai_readiness_audit_chain.handler_names h m).0

registry-IsNamed : (h : Handler) → Memᴰ h registry → IsNamed h
registry-IsNamed h m = (all-IsModest ai_readiness_audit_chain.handler_names h m).1

abbrev store : ArtifactStore
store = record { root = "/art"; attempt_id = none; files = [] }

abbrev run_result : ChainExecutionResult
run_result = elim (execute os registry request store none none none) [
  | none ↦ blocked_result os request ""
  | some r ↦ r
]

ran : execute os registry request store none none none ≡ some run_result
unfolding execute resolve_chain run_chain loop start visit run_handler settle conclude find_handler
    next_pr_status enforce_no_repo_mutation can_modify_repo ok_result write_checkpoint
ran = refl

execute-verdict_example :
    (run_result.final_status ≡ outcome run_result.handler_results)
    × (run_result.verifier_decision ≡ verdict Decision.pending run_result.handler_results)
execute-verdict_example =
    execute-verdict os registry request store none none none registry-IsModest ran

execute-IsWalk_example :
    (chain : ChainDefinition) × (resolve_chain (task_type_value request.task_type) ≡ some chain)
    × (run_result.chain_id ≡ chain.chain_id)
    × IsWalk run_result.handler_results chain.handler_names
execute-IsWalk_example =
    execute-IsWalk os registry request store none none none registry-IsNamed ran

run_passes : run_result.final_status ≡ FinalStatus.pass
unfolding execute resolve_chain run_chain loop start visit run_handler settle conclude find_handler
    next_pr_status enforce_no_repo_mutation finish decide_final_status set_verifier_decision
    write_checkpoint can_modify_repo can_decide_pass ok_result
run_passes = refl

execute_pass_example :
    HasPassingVerifier run_result.handler_results
    × (any is_failing run_result.handler_results ≡ false)
    × (any is_blocking run_result.handler_results ≡ false)
execute_pass_example =
    execute_pass os registry request store none none none registry-IsModest ran run_passes

abbrev settings : RuntimeSettings
settings = record { workspace_root = "/srv"; artifacts_root = "/art"; production_mode = false }

abbrev disk : Disk
disk = record { tree = λ p. none; artifact_files = [] }

abbrev first : RunRecord
first = new_record "R1" (record manifest { models = [] })

abbrev executed_result : ChainExecutionResult
executed_result =
    elim (execute_chain os paths registry settings disk "R1" request "/srv/app" "now"
      (first ∷ [])).0 [ some (Reply.ok r) ↦ r | _ ↦ blocked_result os request "" ]

registered : get "R1" (first ∷ []) ≡ some first
unfolding get
registered = refl

executed :
    (execute_chain os paths registry settings disk "R1" request "/srv/app" "now" (first ∷ [])).0
    ≡ some (Reply.ok executed_result)
unfolding execute_chain get admit identity_mismatch attempt_run allocate resolve execute_attempt
    execute resolve_chain run_chain loop start visit run_handler settle conclude find_handler
    next_pr_status enforce_no_repo_mutation can_modify_repo ok_result write_checkpoint
    canonical_violations
executed = refl

execute_chain-run_id_example :
    (executed_result.run_id ≡ "R1")
    × ((v : RunRecord) × (get "R1"
            (execute_chain os paths registry settings disk "R1" request "/srv/app" "now"
              (first ∷ [])).1
          ≡ some v)
        × (v.state ≡ "EXECUTE_CHAIN")
        × (v.chain_execution_result ≡ some executed_result)
        × IsAttempted os paths first v)
execute_chain-run_id_example =
    execute_chain-run_id os paths registry settings disk "R1" request "/srv/app" "now" (first ∷ [])
      first registered executed

resolve_chain_total_example : (chain : ChainDefinition) × IsRouted TaskType.refactor chain
resolve_chain_total_example = resolve_chain_total TaskType.refactor

abbrev tree_tool : Tool
tree_tool = record {
  name = "list_repo_tree";
  run = λ repo. Outcome.output "a.py\n";
  mutating = false;
}

abbrev context : ChainContext
context = (start os request store none none none).context

abbrev tool_result : ToolResult × ChainContext
tool_result =
    elim (run_tool os (tree_tool ∷ []) "list_repo_tree" RunType.read_only_analysis "/srv" context) [
      | some p ↦ p
      | none ↦
          (without_artifact "" ToolStatus.failed PolicyDecision.forbidden "" (pos 0) "", context)
    ]

tool_ran :
    run_tool os (tree_tool ∷ []) "list_repo_tree" RunType.read_only_analysis "/srv" context
    ≡ some tool_result
unfolding run_tool decide get_tool run_allowed record_artifact append_artifact append write
tool_ran = refl

run_tool-controlled_example :
    (tool_result.0.policy_decision
      ≡ (decide (tree_tool ∷ []) "list_repo_tree" RunType.read_only_analysis).0)
    × IsControlledRun os
        (decide (tree_tool ∷ []) "list_repo_tree" RunType.read_only_analysis).0
        context
        tool_result.0
        tool_result.1
run_tool-controlled_example =
    run_tool-controlled os (tree_tool ∷ []) "list_repo_tree" RunType.read_only_analysis "/srv"
      context tool_ran

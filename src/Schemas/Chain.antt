-- ===== src/Schemas/Chain.antt =====
-- Chain contracts (backend/app/schemas/chain.py).
use agent_analysis.Prelude.{String, Bool, not, ◌==◌, ◌+s◌, List, [], ◌∷◌, Option, collect}
use agent_analysis.Schemas.Constants.{
  RunType, Decision, canonical_local_project_path, canonical_github_repo_url,
}
use agent_analysis.Schemas.GateResult.{GateResult}
use agent_analysis.Schemas.Ledger.{Artifact}
use agent_analysis.Schemas.Json.{Fields}

pub data TaskType : Type 0 where
  ai_readiness_audit implementation bug_fix security_review dependency_update documentation_update
        ci_failure_repair refactor test_coverage_expansion :
      TaskType

unfoldable pub task_type_value : TaskType → String
task_type_value TaskType.ai_readiness_audit = "AI_READINESS_AUDIT"
task_type_value TaskType.implementation = "IMPLEMENTATION"
task_type_value TaskType.bug_fix = "BUG_FIX"
task_type_value TaskType.security_review = "SECURITY_REVIEW"
task_type_value TaskType.dependency_update = "DEPENDENCY_UPDATE"
task_type_value TaskType.documentation_update = "DOCUMENTATION_UPDATE"
task_type_value TaskType.ci_failure_repair = "CI_FAILURE_REPAIR"
task_type_value TaskType.refactor = "REFACTOR"
task_type_value TaskType.test_coverage_expansion = "TEST_COVERAGE_EXPANSION"

pub data HandlerType : Type 0 where
  pure_check read_only_command write_command agent_invocation verifier pr_action evaluator :
      HandlerType

unfoldable pub handler_type_value : HandlerType → String
handler_type_value HandlerType.pure_check = "PURE_CHECK"
handler_type_value HandlerType.read_only_command = "READ_ONLY_COMMAND"
handler_type_value HandlerType.write_command = "WRITE_COMMAND"
handler_type_value HandlerType.agent_invocation = "AGENT_INVOCATION"
handler_type_value HandlerType.verifier = "VERIFIER"
handler_type_value HandlerType.pr_action = "PR_ACTION"
handler_type_value HandlerType.evaluator = "EVALUATOR"

pub data HandlerStatus : Type 0 where
  pass fail blocked skipped : HandlerStatus

pub data HandlerDecision : Type 0 where
  go_on skip_not_applicable fail blocked stop : HandlerDecision

pub data PrStatus : Type 0 where
  gated not_required not_ready blocked : PrStatus

unfoldable pub pr_status_value : PrStatus → String
pr_status_value PrStatus.gated = "GATED"
pr_status_value PrStatus.not_required = "NOT_REQUIRED"
pr_status_value PrStatus.not_ready = "NOT_READY"
pr_status_value PrStatus.blocked = "BLOCKED"

pub record ScrumEnvelope : Type 0 where
  pub product_backlog_item_id : String
  pub sprint_goal : String
  pub sprint_backlog_task_id : String
  pub definition_of_done_version : String
  pub acceptance_criteria : List String

pub record ScopeEnvelope : Type 0 where
  pub files_in_scope : List String
  pub files_out_of_scope : List String

pub record HardRules : Type 0 where
  pub auto_merge : Bool
  pub auto_deploy : Bool
  pub parallel_tool_calls : Bool
  pub agent_self_certification_allowed : Bool

pub record ChainRequest : Type 0 where
  pub run_id : String
  pub task_id : String
  pub task_type : TaskType
  pub mode : RunType
  pub state : String
  pub repo_path : String
  pub github_repo_url : String
  pub scrum : ScrumEnvelope
  pub scope : ScopeEnvelope
  pub hard_rules : HardRules
  pub artifacts : List String
  pub evidence_refs : List String
  pub metadata : Fields

unfoldable pub canonical_violations : ChainRequest → List String
canonical_violations r = collect (
    (
      not (r.repo_path == canonical_local_project_path),
      "repo_path must equal " +s canonical_local_project_path,
    )
    ∷ (
      not (r.github_repo_url == canonical_github_repo_url),
      "github_repo_url must equal " +s canonical_github_repo_url,
    )
    ∷ (r.hard_rules.auto_merge, "auto_merge must be false")
    ∷ (r.hard_rules.auto_deploy, "auto_deploy must be false")
    ∷ (r.hard_rules.parallel_tool_calls, "parallel_tool_calls must be false")
    ∷ (
      r.hard_rules.agent_self_certification_allowed,
      "agent_self_certification_allowed must be false",
    )
    ∷ [])

pub record HandlerResult : Type 0 where
  pub handler_name : String
  pub handler_type : HandlerType
  pub status : HandlerStatus
  pub decision : HandlerDecision
  pub artifacts_created : List String
  pub evidence_refs : List String
  pub gate_results : List GateResult
  pub next_handler : String
  pub failure_reasons : List String
  pub required_corrections : List String
  pub metadata : Fields

-- `Literal["PASS", "FAIL", "BLOCKED"]`
pub data FinalStatus : Type 0 where
  pass fail blocked : FinalStatus

pub record ChainExecutionResult : Type 0 where
  pub run_id : String
  pub task_id : String
  pub task_type : String
  pub chain_id : String
  pub mode : RunType
  pub handler_results : List HandlerResult
  pub final_status : FinalStatus
  pub verifier_decision : Decision
  pub eval_score : Option String
  pub pr_status : PrStatus
  pub agent_self_certification_used : Bool
  pub auto_merge : Bool
  pub auto_deploy : Bool
  pub evidence_artifacts : List Artifact

unfoldable pub final_status_value : FinalStatus → String
final_status_value FinalStatus.pass = "PASS"
final_status_value FinalStatus.fail = "FAIL"
final_status_value FinalStatus.blocked = "BLOCKED"

-- ===== src/Schemas/Constants.antt =====
-- The project's constants and enumerations (backend/app/constants.py).
use agent_analysis.Prelude.{ℕ, String, Bool, true, false}

abbrev pub canonical_local_project_path : String
canonical_local_project_path = "C:\\Users\\Emory Harris\\projects\\agent-analysis"

abbrev pub canonical_github_repo_url : String
canonical_github_repo_url = "https://github.com/Lvvphole/Agent-Analysis"

abbrev pub default_max_agent_attempts : ℕ
default_max_agent_attempts = 3

abbrev pub default_max_verifier_failures : ℕ
default_max_verifier_failures = 2

abbrev pub default_on_exhaustion : String
default_on_exhaustion = "BLOCKED"

pub data RunType : Type 0 where
  read_only_analysis implementation : RunType

pub data GateStatus : Type 0 where
  pass fail blocked : GateStatus

pub data Decision : Type 0 where
  pass fail blocked pending : Decision

-- The values of the enumerations, as the source spells them.
unfoldable pub run_type_value : RunType → String
run_type_value RunType.read_only_analysis = "READ_ONLY_ANALYSIS"
run_type_value RunType.implementation = "IMPLEMENTATION"

unfoldable pub decision_value : Decision → String
decision_value Decision.pass = "PASS"
decision_value Decision.fail = "FAIL"
decision_value Decision.blocked = "BLOCKED"
decision_value Decision.pending = "PENDING"

-- `==` on the enumerations.
abbrev pub is_implementation : RunType → Bool
is_implementation RunType.implementation = true
is_implementation RunType.read_only_analysis = false

abbrev pub is_gate_pass : GateStatus → Bool
is_gate_pass GateStatus.pass = true
is_gate_pass GateStatus.fail = false
is_gate_pass GateStatus.blocked = false

abbrev pub is_pass : Decision → Bool
is_pass Decision.pass = true
is_pass Decision.fail = false
is_pass Decision.blocked = false
is_pass Decision.pending = false

pub data ImplementationState : Type 0 where
  intake refine plan design_gate agent_invoke diff_capture test verify evaluate memory_update
        pr_gate stop_or_loop :
      ImplementationState

pub data AnalysisState : Type 0 where
  intake refine plan design_gate agent_invoke_readonly evidence_capture verify_analysis evaluate
        backlog_update stop_or_loop :
      AnalysisState

unfoldable pub implementation_state_value : ImplementationState → String
implementation_state_value ImplementationState.intake = "INTAKE"
implementation_state_value ImplementationState.refine = "REFINE"
implementation_state_value ImplementationState.plan = "PLAN"
implementation_state_value ImplementationState.design_gate = "DESIGN_GATE"
implementation_state_value ImplementationState.agent_invoke = "AGENT_INVOKE"
implementation_state_value ImplementationState.diff_capture = "DIFF_CAPTURE"
implementation_state_value ImplementationState.test = "TEST"
implementation_state_value ImplementationState.verify = "VERIFY"
implementation_state_value ImplementationState.evaluate = "EVALUATE"
implementation_state_value ImplementationState.memory_update = "MEMORY_UPDATE"
implementation_state_value ImplementationState.pr_gate = "PR_GATE"
implementation_state_value ImplementationState.stop_or_loop = "STOP_OR_LOOP"

unfoldable pub analysis_state_value : AnalysisState → String
analysis_state_value AnalysisState.intake = "INTAKE"
analysis_state_value AnalysisState.refine = "REFINE"
analysis_state_value AnalysisState.plan = "PLAN"
analysis_state_value AnalysisState.design_gate = "DESIGN_GATE"
analysis_state_value AnalysisState.agent_invoke_readonly = "AGENT_INVOKE_READONLY"
analysis_state_value AnalysisState.evidence_capture = "EVIDENCE_CAPTURE"
analysis_state_value AnalysisState.verify_analysis = "VERIFY_ANALYSIS"
analysis_state_value AnalysisState.evaluate = "EVALUATE"
analysis_state_value AnalysisState.backlog_update = "BACKLOG_UPDATE"
analysis_state_value AnalysisState.stop_or_loop = "STOP_OR_LOOP"

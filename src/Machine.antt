-- ===== src/Machine.antt =====
-- The ordering of a run's states and the artifacts that a transition needs
-- (backend/app/state_machine.py), and the retry budget (backend/app/retry_budget.py). A state is its
-- spelling, as in the source.
pub mod Order
pub mod Guard
pub mod Budget
use agent_analysis.Prelude.{
  Bool, ℕ, zero, suc, String, not, ◌==◌, ◌+s◌, List, [], ◌∷◌, Option, none, some, if◌then◌else◌,
  any, all, map, member, join, basename, select,
}
use agent_analysis.Schemas.Constants.{
  RunType, is_implementation, run_type_value, ImplementationState, implementation_state_value,
  AnalysisState, analysis_state_value,
}
use agent_analysis.Schemas.GateResult.{GateResult, of}

abbrev pub terminal_state : String
terminal_state = "STOP_OR_LOOP"

-- `IMPLEMENTATION_STATE_ORDER`
unfoldable pub implementation_state_order : List String
unfolding implementation_state_value
implementation_state_order = map implementation_state_value (
    ImplementationState.intake ∷ ImplementationState.refine ∷ ImplementationState.plan
    ∷ ImplementationState.design_gate ∷ ImplementationState.agent_invoke
    ∷ ImplementationState.diff_capture ∷ ImplementationState.test ∷ ImplementationState.verify
    ∷ ImplementationState.evaluate ∷ ImplementationState.memory_update ∷ ImplementationState.pr_gate
    ∷ ImplementationState.stop_or_loop ∷ [])

-- `ANALYSIS_STATE_ORDER`
unfoldable pub analysis_state_order : List String
unfolding analysis_state_value
analysis_state_order = map analysis_state_value (
    AnalysisState.intake ∷ AnalysisState.refine ∷ AnalysisState.plan ∷ AnalysisState.design_gate
    ∷ AnalysisState.agent_invoke_readonly ∷ AnalysisState.evidence_capture
    ∷ AnalysisState.verify_analysis ∷ AnalysisState.evaluate ∷ AnalysisState.backlog_update
    ∷ AnalysisState.stop_or_loop ∷ [])

-- `_order`
unfoldable pub order : RunType → List String
unfolding implementation_state_order analysis_state_order
order RunType.implementation = implementation_state_order
order RunType.read_only_analysis = analysis_state_order

-- order[n], `none` out of range.
abbrev pub get_elem? {ℓ} : {A : Type ℓ} → List A → ℕ → Option A
get_elem? [] n = none
get_elem? (x ∷ xs) zero = some x
get_elem? (x ∷ xs) (suc n) = get_elem? xs n

-- What stands after the first occurrence of a state; the outer `none` is no occurrence.
unfoldable pub after : String → List String → Option (Option String)
after s [] = none
after s (x ∷ xs) = if x == s then some (get_elem? xs 0) else after s xs

-- The outer `none` is the ValueError on an unknown state; the inner one is the terminal state.
unfoldable pub next_state : RunType → String → Option (Option String)
unfolding after order
next_state run_type current_state = after current_state (order run_type)

plan_artifacts : List String
plan_artifacts =
    "task_plan.json" ∷ "command_plan.json" ∷ "scope_plan.json" ∷ "rollback_plan.json"
    ∷ "definition_of_done_lock.json" ∷ []

refine_artifacts : List String
refine_artifacts = "scrum_mapping.json" ∷ "acceptance_criteria.json" ∷ "complexity_risk.json" ∷ []

design_artifacts : List String
design_artifacts =
    "design_options.json" ∷ "selected_design.json" ∷ "strategic_programming_contract.json" ∷ []

-- `_IMPLEMENTATION_REQUIRED`
unfoldable pub implementation_required : List (String × List String)
unfolding plan_artifacts refine_artifacts design_artifacts
implementation_required =
    ("INTAKE", "task_contract.json" ∷ "run_manifest.json" ∷ [])
    ∷ ("REFINE", refine_artifacts)
    ∷ ("PLAN", plan_artifacts)
    ∷ ("DESIGN_GATE", design_artifacts)
    ∷ (
      "AGENT_INVOKE",
      "agent_invocation.md" ∷ "agent_summary.md" ∷ "raw_agent_output.log"
          ∷ "file_change_record.json" ∷ [],
    )
    ∷ ("DIFF_CAPTURE", "diff.patch" ∷ "git_status.log" ∷ "diff_check.log" ∷ [])
    ∷ ("TEST", "test_output.log" ∷ [])
    ∷ ("VERIFY", "verifier_report.json" ∷ "evidence_ledger.json" ∷ [])
    ∷ ("EVALUATE", "evaluation_report.json" ∷ [])
    ∷ ("MEMORY_UPDATE", "memory_update_record.json" ∷ [])
    ∷ ("PR_GATE", "pr_gate_report.json" ∷ "final_checkpoint.json" ∷ [])
    ∷ []

-- `_ANALYSIS_REQUIRED`
unfoldable pub analysis_required : List (String × List String)
unfolding plan_artifacts refine_artifacts design_artifacts
analysis_required =
    ("INTAKE", "task_contract.json" ∷ "run_manifest.json" ∷ [])
    ∷ ("REFINE", refine_artifacts)
    ∷ ("PLAN", plan_artifacts)
    ∷ ("DESIGN_GATE", design_artifacts)
    ∷ ("AGENT_INVOKE_READONLY", "repo_tree.log" ∷ "command_discovery.log" ∷ [])
    ∷ ("EVIDENCE_CAPTURE", "codebase_ai_readiness_report.json" ∷ "evidence_ledger.json" ∷ [])
    ∷ ("VERIFY_ANALYSIS", "verifier_report.json" ∷ [])
    ∷ ("EVALUATE", "evaluation_report.json" ∷ [])
    ∷ ("BACKLOG_UPDATE", "ai_safety_gap_backlog.json" ∷ "final_checkpoint.json" ∷ [])
    ∷ []

-- `_ALTERNATIVE_REQUIRED`
unfoldable pub alternative_required : List (String × List (List String))
alternative_required =
    (
      "MEMORY_UPDATE",
      ("memory_update_record.json" ∷ []) ∷ ("memory_update_skip_reason.json" ∷ []) ∷ [],
    )
    ∷ []

-- table.get(state)
unfoldable pub get {ℓ} : {A : Type ℓ} → String → List (String × A) → Option A
get state [] = none
get state ((s, v) ∷ rest) = if s == state then some v else get state rest

-- `_required(run_type).get(current_state, ())`
unfoldable pub required_for : RunType → String → List String
unfolding get implementation_required analysis_required
required_for RunType.implementation s = elim (get s implementation_required) [
  | none ↦ []
  | some names ↦ names
]
required_for RunType.read_only_analysis s = elim (get s analysis_required) [
  | none ↦ []
  | some names ↦ names
]

unfoldable pub missing_reason : String → String → String
missing_reason state name = "missing required artifact to leave " +s state +s ": " +s name

unfoldable pub alternatives_reasons : String → List String → List (List String) → List String
alternatives_reasons state present alternatives =
    if any (λ option. all (λ name. member name present) option) alternatives
    then []
    else ("missing required artifacts to leave "
        +s state
        +s ": "
        +s join " or " (map (λ option. join "/" option) alternatives))
      ∷ []

-- Only an implementation must show a diff.
unfoldable pub diff_required : RunType → Bool
diff_required run_type = is_implementation run_type

-- The last part of the guard.
unfoldable pub required_reasons : RunType → String → List String → List String
unfolding required_for
required_reasons run_type state present =
    select (missing_reason state) (λ name. not (member name present)) (required_for run_type state)

unfoldable pub transition_guard : RunType → String → List String → GateResult
unfolding alternatives_reasons required_reasons get alternative_required order
transition_guard run_type current_state present_artifacts =
    let present = map basename present_artifacts in
    of "state_transition_guard" (
      if not (member current_state (order run_type))
      then ("unknown state '" +s current_state +s "' for " +s run_type_value run_type) ∷ []
      else elim (get current_state alternative_required) [
        | some alternatives ↦ alternatives_reasons current_state present alternatives
        | none ↦ required_reasons run_type current_state present
      ])

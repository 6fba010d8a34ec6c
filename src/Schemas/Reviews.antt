-- ===== src/Schemas/Reviews.antt =====
-- Scrum mapping, strategic design and verifier report (backend/app/schemas/scrum_mapping.py,
-- strategic_programming.py, verifier_report.py).
use agent_analysis.Prelude.{String, Bool, List}
use agent_analysis.Schemas.Constants.{Decision}

pub record ScrumMapping : Type 0 where
  pub product_backlog_item_id : String
  pub product_backlog_item_title : String
  pub sprint_id : String
  pub sprint_goal : String
  pub sprint_backlog_task_id : String
  pub acceptance_criteria : List String
  pub definition_of_done_version : String
  pub increment_candidate : Bool
  pub supports_sprint_goal : Bool

pub record ComplexityRisks : Type 0 where
  pub change_amplification : String
  pub cognitive_load : String
  pub unknown_unknowns : String

pub record DesignOption : Type 0 where
  pub option_id : String
  pub summary : String
  pub tradeoffs : String
  pub rejected_or_selected : String

pub record StrategicProgramming : Type 0 where
  pub responsibility_owner : String
  pub complexity_risks : ComplexityRisks
  pub design_options : List DesignOption
  pub selected_design : String
  pub interface_contract : String
  pub complexity_hidden_where : String
  pub errors_designed_out : List String
  pub known_design_debt : List String
  pub introduces_shallow_passthrough : Bool
  pub complexity_leaks_into_callers : Bool
  pub error_handling_scattered : Bool
  pub invalid_states_unhandled : Bool
  pub unjustified_duplication : Bool
  pub increases_change_amplification : Bool
  pub works_but_harder_to_change : Bool

pub data PassFail : Type 0 where
  pass fail not_applicable not_ready : PassFail

pub record StrategicProgrammingGate : Type 0 where
  pub change_amplification : PassFail
  pub cognitive_load : PassFail
  pub unknown_unknowns : PassFail
  pub deep_module : PassFail
  pub interface_simplicity : PassFail
  pub error_design : PassFail
  pub duplication : PassFail
  pub scope_control : PassFail

pub record VerifierReport : Type 0 where
  pub task_id : String
  pub run_id : String
  pub verifier_id : String
  pub verifier_run_id : String
  pub coding_agent_run_id : String
  pub same_agent_verifier_check : PassFail
  pub functional_acceptance : PassFail
  pub test_status : PassFail
  pub lint_status : PassFail
  pub typecheck_status : PassFail
  pub build_status : PassFail
  pub scope_status : PassFail
  pub strategic_programming_gate : StrategicProgrammingGate
  pub evidence_status : PassFail
  pub pr_gate_status : PassFail
  pub decision : Decision
  pub failure_reasons : List String
  pub required_corrections : List String
  pub timestamp : String

-- ===== src/Schemas/Checkpoint.antt =====
-- Checkpoints (backend/app/schemas/checkpoint.py).
use agent_analysis.Prelude.{String, Bool, ℤ, List}
use agent_analysis.Schemas.Constants.{Decision}
use agent_analysis.Schemas.GateResult.{GateResult}

pub record Checkpoint : Type 0 where
  pub run_id : String
  pub task_id : String
  pub goal_id : String
  pub sprint_id : String
  pub product_backlog_item_id : String
  pub state : String
  pub previous_state : String
  pub next_state : String
  pub branch : String
  pub commit_hash : String
  pub diff_path : String
  pub test_output_path : String
  pub verifier_report_path : String
  pub evidence_ledger_path : String
  pub evaluation_report_path : String
  pub pr_url : String
  pub auto_merge : Bool
  pub auto_deploy : Bool
  pub agent_self_certified : Bool
  pub executor_id : String
  pub coding_agent_id : String
  pub coding_agent_run_id : String
  pub verifier_id : String
  pub verifier_run_id : String
  pub verifier_decision : Decision
  pub agent_attempt_count : ℤ
  pub verifier_failure_count : ℤ
  pub gate_results : List GateResult
  pub next_action : String
  pub local_project_path : String
  pub github_repo_url : String
  pub created_at : String
  pub updated_at : String

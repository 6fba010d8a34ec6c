-- ===== src/Schemas/Manifest.antt =====
-- The run manifest (backend/app/schemas/run_manifest.py).
use agent_analysis.Prelude.{String, Bool, List, ℤ}
use agent_analysis.Schemas.Constants.{RunType}
use agent_analysis.Schemas.Models.{ModelSpec}

pub record RunManifest : Type 0 where
  pub run_id : String
  pub goal_id : String
  pub task_id : String
  pub sprint_id : String
  pub product_backlog_item_id : String
  pub run_type : RunType
  pub temperature : String
  pub top_p : String
  pub seed : ℤ
  pub model : String
  pub prompt_hash : String
  pub schema_mode : String
  pub tools : String
  pub parallel_tool_calls : Bool
  pub models : List ModelSpec
  pub allowed_model_ids : List String
  pub auto_merge : Bool
  pub auto_deploy : Bool
  pub created_at : String
  pub executor_id : String
  pub coding_agent_id : String
  pub coding_agent_run_id : String
  pub verifier_id : String
  pub verifier_run_id : String
  pub definition_of_done_version : String
  pub allowed_commands : List String
  pub forbidden_commands : List String
  pub files_in_scope : List String
  pub files_out_of_scope : List String
  pub max_agent_attempts : ℤ
  pub max_verifier_failures : ℤ
  pub on_exhaustion : String
  pub local_project_path : String
  pub github_repo_url : String

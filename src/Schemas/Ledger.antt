-- ===== src/Schemas/Ledger.antt =====
-- Artifacts and the evidence ledger (backend/app/schemas/artifact.py, evidence_ledger.py).
use agent_analysis.Prelude.{String, Bool, List, Option}
use agent_analysis.Schemas.Constants.{Decision}

pub data ArtifactType : Type 0 where
  diff test lint typecheck build verifier_report pr checkpoint command_output scope_change
        analysis_report scrum_mapping strategic_review llm_invocation :
      ArtifactType

pub data LedgerResult : Type 0 where
  pass fail blocked info : LedgerResult

unfoldable pub artifact_type_value : ArtifactType → String
artifact_type_value ArtifactType.diff = "DIFF"
artifact_type_value ArtifactType.test = "TEST"
artifact_type_value ArtifactType.lint = "LINT"
artifact_type_value ArtifactType.typecheck = "TYPECHECK"
artifact_type_value ArtifactType.build = "BUILD"
artifact_type_value ArtifactType.verifier_report = "VERIFIER_REPORT"
artifact_type_value ArtifactType.pr = "PR"
artifact_type_value ArtifactType.checkpoint = "CHECKPOINT"
artifact_type_value ArtifactType.command_output = "COMMAND_OUTPUT"
artifact_type_value ArtifactType.scope_change = "SCOPE_CHANGE"
artifact_type_value ArtifactType.analysis_report = "ANALYSIS_REPORT"
artifact_type_value ArtifactType.scrum_mapping = "SCRUM_MAPPING"
artifact_type_value ArtifactType.strategic_review = "STRATEGIC_REVIEW"
artifact_type_value ArtifactType.llm_invocation = "LLM_INVOCATION"

pub record Artifact : Type 0 where
  pub artifact_id : String
  pub run_id : String
  pub task_id : String
  pub artifact_type : ArtifactType
  pub path : String
  pub hash : String
  pub attempt_id : Option String
  pub created_at : String
  pub recorded_by : String

pub record LedgerEntry : Type 0 where
  pub entry_id : String
  pub timestamp : String
  pub artifact_type : ArtifactType
  pub artifact_path : String
  pub command : String
  pub result : LedgerResult
  pub hash : String
  pub recorded_by : String

pub record EvidenceLedger : Type 0 where
  pub task_id : String
  pub run_id : String
  pub ledger_entries : List LedgerEntry
  pub final_status : Decision
  pub auto_merge : Bool
  pub auto_deploy : Bool
  pub agent_self_certification_used : Bool

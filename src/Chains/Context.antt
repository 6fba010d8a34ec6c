-- ===== src/Chains/Context.antt =====
-- The execution context of a chain (backend/app/chains/context.py). `repo` is the working tree that
-- `repo_fs_path` names, `none` where the path does not exist, and `clock` counts the readings of the
-- time. The runtime services of the analyst step (`agent_specs`, `agent_adapters`,
-- `tool_registry`, `tool_policy`) are left to that step.
use agent_analysis.Prelude.{
  ℕ, ◌+◌, String, Bool, false, ◌==◌, ◌&&◌, List, [], ◌∷◌, ◌++◌, Option, none, some, if◌then◌else◌,
  any, all, member, join,
}
use agent_analysis.Platform.{Platform}
use agent_analysis.Schemas.Constants.{Decision}
use agent_analysis.Schemas.Ledger.{ArtifactType, LedgerResult, Artifact}
use agent_analysis.Schemas.Manifest.{RunManifest}
use agent_analysis.Schemas.Reviews.{ScrumMapping, StrategicProgramming}
use agent_analysis.Schemas.Json.{Value, Fields}
use agent_analysis.Schemas.Chain.{ChainRequest}
use agent_analysis.Gates.Tests.{TestOutcome}
use agent_analysis.Storage.ArtifactStore
use agent_analysis.Storage.ArtifactStore.{ArtifactStore}
use agent_analysis.Storage.EvidenceWriter
use agent_analysis.Storage.EvidenceWriter.{EvidenceLedgerWriter}

-- A file of the working tree: the parts of its relative path, and its bytes.
abbrev pub RepoFile : Type 0
RepoFile = List String × String

-- A Python dict from texts to texts; its keys are distinct.
abbrev pub Snapshot : Type 0
Snapshot = List (String × String)

pub record BacklogFinding : Type 0 where
  pub finding_id : String
  pub run_id : String
  pub title : String
  pub description : String
  pub severity : String
  pub category : String
  pub evidence_artifact_paths : List String
  pub recommended_action : String

pub record ChainContext : Type 0 where
  pub request : ChainRequest
  pub store : ArtifactStore
  pub evidence : EvidenceLedgerWriter
  pub repo : Option (List RepoFile)
  pub clock : ℕ
  pub manifest : Option RunManifest
  pub scrum : Option ScrumMapping
  pub strategic : Option StrategicProgramming
  pub locked_dod_version : Option String
  pub repo_snapshot : Snapshot
  pub changed_files : List String
  pub test_outcomes : List TestOutcome
  pub coding_agent_run_id : String
  pub verifier_run_id : String
  pub verifier_decision : Decision
  pub agent_summary_quarantined : Bool
  pub agent_self_certification_used : Bool
  pub eval_score : Option String
  pub readiness_report : Value
  pub findings : List BacklogFinding
  pub artifacts : List Artifact
  pub shared : Fields

abbrev pub skipped_dirs : List String
skipped_dirs = ".git" ∷ "__pycache__" ∷ ".venv" ∷ "venv" ∷ "node_modules" ∷ []

-- d == e for dicts: the same keys with the same values.
unfoldable pub holds : Snapshot → String × String → Bool
holds [] (k, v) = false
holds ((j, w) ∷ d) (k, v) = if j == k then w == v else holds d (k, v)

unfoldable pub same_snapshot : Snapshot → Snapshot → Bool
unfolding holds
same_snapshot d e = all (holds e) d && all (holds d) e

-- The keyword arguments of `record_artifact`.
pub record ArtifactRequest : Type 0 where
  pub name : String
  pub data_text : String
  pub artifact_type : ArtifactType
  pub result : LedgerResult
  pub command : String
  pub recorded_by : String

module _ (os : Platform) where
  unfoldable pub snapshot_files : List RepoFile → Snapshot
  snapshot_files [] = []
  snapshot_files ((parts, content) ∷ files) =
      let rest = snapshot_files files in
      if any (λ part. member part skipped_dirs) parts
      then rest
      else (join "/" parts, os.sha256 content) ∷ rest

  -- `rglob` of a path that does not exist finds nothing. A file that cannot be read raises in the
  -- source; the tree given here is one whose files can all be read.
  unfoldable pub snapshot_repo : Option (List RepoFile) → Snapshot
  unfolding snapshot_files
  snapshot_repo none = []
  snapshot_repo (some files) = snapshot_files files

  write_for : ArtifactRequest → ChainContext → ArtifactStore × Artifact
  write_for r c = ArtifactStore.write os c.store (record {
    run_id = c.request.run_id;
    task_id = c.request.task_id;
    name = r.name;
    payload = r.data_text;
    artifact_type = r.artifact_type;
    recorded_by = r.recorded_by;
    created_at = os.utcnow c.clock;
  })

  -- `none` is an exception: the ledger refuses an artifact with no hash.
  unfoldable pub record_artifact : ArtifactRequest → ChainContext → Option (Artifact × ChainContext)
  unfolding write_for
  record_artifact r c =
      let (store, artifact) = write_for r c in
      elim (EvidenceWriter.append_artifact c.evidence (os.utcnow (c.clock + 1)) artifact r.result
        r.command) [
          | none ↦ none
          | some (evidence, entry) ↦ some (
            artifact,
            record c {
              store = store;
              evidence = evidence;
              clock = c.clock + 2;
              artifacts = c.artifacts ++ artifact ∷ [];
            },
          )
        ]

  -- Agent output goes to the store and not to the ledger.
  unfoldable pub write_quarantined :
      String → String → String → ChainContext → Artifact × ChainContext
  unfolding write_for
  write_quarantined name data_text recorded_by c =
      let (store, artifact) =
        write_for
          (record {
            name = name;
            data_text = data_text;
            artifact_type = ArtifactType.command_output;
            result = LedgerResult.info;
            command = "";
            recorded_by = recorded_by;
          })
          c in
      (artifact, record c { store = store; clock = c.clock + 1 })

-- ===== src/Workflows/Analysis/Supported.antt =====
-- What a read-only analysis produces.
use agent_analysis.Prelude.{String, true, ◌≡◌, List, [], ◌∷◌, Option, All, Memᴰ, map, length}
use agent_analysis.Platform.{Platform}
use agent_analysis.Schemas.Ledger.{ArtifactType, Artifact, LedgerEntry}
use agent_analysis.Schemas.GateResult.{passed}
use agent_analysis.Gates.Evidence.{evidence_gate}
use agent_analysis.Storage.ArtifactStore.{ArtifactStore}
use agent_analysis.Storage.EvidenceWriter.Written.{Written, IsClean}
use agent_analysis.Chains.Context.{RepoFile, BacklogFinding}
use agent_analysis.Workflows.Analysis.{
  AnalysisResult, inventory, discover_commands, readiness_report,
}

module _ (os : Platform) where
  -- An entry of the workflow is no agent narrative, and is an analysis report.
  abbrev IsReport : LedgerEntry → Type 0
  IsReport e = IsClean e × (e.artifact_type ≡ ArtifactType.analysis_report)

  -- The three names under which the workflow writes.
  abbrev pub workflow_names : List String
  workflow_names =
      "repo_tree.log" ∷ "command_discovery.log" ∷ "codebase_ai_readiness_report.json" ∷ []

  -- What is said of a finding: it belongs to the run, and its evidence is among the artifacts.
  abbrev pub IsBacked : String → List Artifact → BacklogFinding → Type 0
  IsBacked run_id artifacts f =
      (f.run_id ≡ run_id)
      × All (λ path. Memᴰ path (map (λ (a : Artifact). a.path) artifacts)) f.evidence_artifact_paths

  -- What a read-only analysis of a repository returns.
  pub record IsSupported (repo : Option (List RepoFile)) (run_id task_id : String)
      (r : AnalysisResult) : Type 0 where
    pub evidenced :
        passed (evidence_gate r.evidence_ledger run_id task_id ("ANALYSIS_REPORT" ∷ [])) ≡ true
    pub three : length r.artifacts ≡ 3
    pub backed : All (IsBacked run_id r.artifacts) r.findings
    pub reported :
        r.readiness ≡ readiness_report (inventory repo) (discover_commands (inventory repo))

-- ===== src/Workflows/Analysis.antt =====
-- The read-only analysis (backend/app/workflows/analysis_workflow.py). A set of file names is a list
-- with no repetition.
mod Kept
pub mod Supported
use agent_analysis.Prelude.{
  ℕ, ◌+◌, String, Bool, true, false, not, ◌&&◌, ◌||◌, List, [], ◌∷◌, ◌++◌, Option, none, some,
  ◌>>=◌, if◌then◌else◌, is_nil, any, map, select, member, join, length, starts, ends, sort_paths,
  pos, ◌+s◌,
}
use agent_analysis.Platform.{Platform}
use agent_analysis.Schemas.Json.{Value, Fields, bool, int, array, object, end, field, texts}
use agent_analysis.Schemas.Ledger.{ArtifactType, LedgerResult, Artifact, EvidenceLedger}
use agent_analysis.Storage.ArtifactStore
use agent_analysis.Storage.ArtifactStore.{ArtifactStore}
use agent_analysis.Storage.EvidenceWriter
use agent_analysis.Storage.EvidenceWriter.{EvidenceLedgerWriter, new_writer}
use agent_analysis.Chains.Context.{RepoFile, BacklogFinding}

-- `_SKIP_DIRS`
abbrev pub skip_dirs : List String
skip_dirs = ".git" ∷ "node_modules" ∷ "__pycache__" ∷ ".venv" ∷ "venv" ∷ "dist" ∷ "build" ∷ []

-- `any(part in _SKIP_DIRS for part in parts)`
unfoldable pub is_skipped : List String → Bool
is_skipped parts = any (λ part. member part skip_dirs) parts

unfoldable pub inventory : Option (List RepoFile) → List String
unfolding is_skipped
inventory none = []
inventory (some files) =
    select (join "/") (λ parts. not (is_skipped parts)) (sort_paths (map (λ f. f.0) files))

-- The dict of discovered commands, by its three keys.
pub record Commands : Type 0 where
  pub test : List String
  pub lint : List String
  pub build : List String

unfoldable pub discover_commands : List String → Commands
discover_commands files =
    let python = member "pyproject.toml" files || member "requirements.txt" files in
    let node = member "package.json" files in
    record {
      test =
          (if python then "python -m pytest" ∷ [] else [])
          ++ (if node then "npm test" ∷ [] else []);
      lint = if node then "npm run lint" ∷ [] else [];
      build = if node then "npm run build" ∷ [] else [];
    }

unfoldable pub commands_value : Commands → Value
commands_value c = object (
    field "test" (array (texts c.test))
      (field "lint" (array (texts c.lint)) (field "build" (array (texts c.build)) end)))

unfoldable pub has_tests : List String → Commands → Bool
has_tests files commands =
    not (is_nil commands.test)
    || any (λ f. starts "tests/" f || starts "test/" f || ends "_test.py" f) files

unfoldable pub has_ci : List String → Bool
has_ci files = any (λ f. starts ".github/workflows/" f) files

unfoldable pub has_lint : List String → Commands → Bool
has_lint files commands =
    not (is_nil commands.lint)
    || any (λ f. member f (".flake8" ∷ ".eslintrc" ∷ ".eslintrc.json" ∷ "ruff.toml" ∷ [])) files

unfoldable pub readiness_report : List String → Commands → Fields
readiness_report files commands = field "has_tests" (bool (has_tests files commands)) (
    field "has_ci" (bool (has_ci files)) (
      field "has_lint" (bool (has_lint files commands)) (
        field "file_count" (int (pos (length files)))
          (field "discovered_commands" (commands_value commands) end))))

abbrev pub no_tests_finding : BacklogFinding
no_tests_finding = record {
  finding_id = "F-NO-TESTS";
  run_id = "";
  title = "No automated tests detected";
  description = "No test command or test directory was discovered.";
  severity = "HIGH";
  category = "ai_safety_gap";
  evidence_artifact_paths = [];
  recommended_action = "Add a test suite so the harness can require passing tests.";
}

abbrev pub no_ci_finding : BacklogFinding
no_ci_finding = record {
  finding_id = "F-NO-CI";
  run_id = "";
  title = "No CI workflow detected";
  description = "No .github/workflows pipeline was found.";
  severity = "MEDIUM";
  category = "ai_safety_gap";
  evidence_artifact_paths = [];
  recommended_action = "Add CI to run tests and static checks on every change.";
}

unfoldable pub readiness_findings : List String → Commands → List BacklogFinding
readiness_findings files commands =
    (if has_tests files commands then [] else no_tests_finding ∷ [])
    ++ (if has_ci files then [] else no_ci_finding ∷ [])

-- The two assignments of the loop over the findings.
unfoldable pub backed_by : String → List String → BacklogFinding → BacklogFinding
backed_by run_id paths f = record f { run_id = run_id; evidence_artifact_paths = paths }

pub record AnalysisResult : Type 0 where
  pub run_id : String
  pub task_id : String
  pub artifacts : List Artifact
  pub findings : List BacklogFinding
  pub evidence_ledger : EvidenceLedger
  pub readiness : Fields

-- The state of the workflow: the store, the writer, the artifacts so far and the readings of the
-- clock.
pub record Progress : Type 0 where
  pub store : ArtifactStore
  pub writer : EvidenceLedgerWriter
  pub artifacts : List Artifact
  pub clock : ℕ

-- `data` of the first artifact
unfoldable pub tree_text : List String → String
tree_text rows = join "\n" rows +s "\n"

module _ (os : Platform) where
  -- The arguments of the workflow's `store.write(…)`.
  unfoldable pub write_request : String → String → String → String → ℕ → ArtifactStore.WriteRequest
  write_request run_id task_id name payload clock = record {
    run_id = run_id;
    task_id = task_id;
    name = name;
    payload = payload;
    artifact_type = ArtifactType.analysis_report;
    recorded_by = "analysis_workflow";
    created_at = os.utcnow clock;
  }

  -- One artifact: `store.write(…)`, then `writer.append_artifact(…, result="INFO", …)`.
  unfoldable pub keep_artifact :
      String → String → String → String → String → Progress → Option (Artifact × Progress)
  keep_artifact run_id task_id name payload command p =
      let (store, artifact) =
        ArtifactStore.write os p.store (write_request run_id task_id name payload p.clock) in
      elim (EvidenceWriter.append_artifact p.writer (os.utcnow (p.clock + 1)) artifact
        LedgerResult.info command) [
          | none ↦ none
          | some (writer, entry) ↦ some (
            artifact,
            record {
              store = store;
              writer = writer;
              artifacts = p.artifacts ++ artifact ∷ [];
              clock = p.clock + 2;
            },
          )
        ]

  -- The store that the workflow leaves, and its result.
  unfoldable pub run_readonly_analysis :
      Option (List RepoFile)
      → ArtifactStore
      → String
      → String
      → Option (ArtifactStore × AnalysisResult)
  unfolding keep_artifact
  run_readonly_analysis repo store run_id task_id =
      let rows = inventory repo in
      let commands = discover_commands rows in
      let report = readiness_report rows commands in
      do
        tree ← keep_artifact run_id task_id "repo_tree.log" (tree_text rows) "inventory" (record {
          store = store;
          writer = new_writer task_id run_id;
          artifacts = [];
          clock = 0;
        })
        discovery ←
            keep_artifact run_id task_id "command_discovery.log"
              (os.dumps (commands_value commands)) "discover_commands" tree.1
        readiness ←
            keep_artifact run_id task_id "codebase_ai_readiness_report.json"
              (os.dumps (object report)) "assess_readiness" discovery.1
        some (
          (readiness.1).store,
          record {
            run_id = run_id;
            task_id = task_id;
            artifacts = (readiness.1).artifacts;
            findings =
                map (backed_by run_id ((tree.0).path ∷ (discovery.0).path ∷ []))
                  (readiness_findings rows commands);
            evidence_ledger = (readiness.1).writer.ledger;
            readiness = report;
          },
        )

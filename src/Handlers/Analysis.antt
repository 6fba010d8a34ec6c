-- ===== src/Handlers/Analysis.antt =====
-- The analysis handlers (backend/app/handlers/analysis.py).
pub mod Analyst
use agent_analysis.Prelude.{
  ℕ, ◌+◌, String, Bool, true, false, not, ◌||◌, ◌&&◌, ◌==◌, List, [], ◌∷◌, ◌++◌, Option, none, some,
  ◌>>=◌, if◌then◌else◌, ◌+s◌, map, select, is_nil, any, join, starts, slashes, last_part, member,
  sorted_set, show_nat,
}
use agent_analysis.Platform.{Platform}
use agent_analysis.Schemas.Json.{
  Value, Items, Fields, null, bool, text, array, object, nil, cons, end, field, get_or, set_field,
  texts,
}
use agent_analysis.Schemas.Reading.{as_object, iterate, texts_of}
use agent_analysis.Schemas.Ledger.{ArtifactType, LedgerResult, Artifact}
use agent_analysis.Schemas.Chain.{ChainRequest, HandlerDecision}
use agent_analysis.Chains.Context.{
  ChainContext, BacklogFinding, Snapshot, record_artifact, snapshot_repo, same_snapshot, holds,
}
use agent_analysis.Workflows.Analysis.{
  Commands, inventory, discover_commands, commands_value, readiness_report, readiness_findings,
  tree_text, backed_by,
}
use agent_analysis.Handlers.Base.{Handling, Identity, ok_result, fail_result}
use agent_analysis.Handlers.Control.{check_of}
use agent_analysis.Handlers.Commands.{command_of, recorded, log_request}

-- `context.shared.get("files", set())`
unfoldable pub known_files : ChainContext → Option (List String)
known_files c = do items ← iterate (get_or "files" (array nil) c.shared); texts_of items

-- commands[key] of the shared dict; a missing key raises.
unfoldable pub command_list : String → Fields → Option (List String)
command_list key fields = do items ← iterate (get_or key null fields); texts_of items

-- `context.shared.get("commands", {"test": [], "lint": [], "build": []})`, by its keys
unfoldable pub known_commands : ChainContext → Option Commands
unfolding command_list
known_commands c = do
  fields ←
      as_object
        (get_or "commands" (commands_value (record { test = []; lint = []; build = [] })) c.shared)
  test ← command_list "test" fields
  lint ← command_list "lint" fields
  build ← command_list "build" fields
  some (record { test = test; lint = lint; build = build })

-- `_MARKERS` of DependencyInventoryHandler
abbrev pub dependency_markers : List String
dependency_markers =
    "pyproject.toml" ∷ "requirements.txt" ∷ "package.json" ∷ "package-lock.json" ∷ "poetry.lock"
    ∷ []

-- The keys that one of the snapshots lacks, and those with another value.
unfoldable pub changed_keys : Snapshot → Snapshot → List String
changed_keys current before = sorted_set (
    select (λ f. f.0) (λ f. not (holds before f)) current
    ++ select (λ f. f.0) (λ f. not (any (λ g. g.0 == f.0) current)) before)

-- f.model_dump() of a finding
unfoldable pub finding_value : BacklogFinding → Value
finding_value f = object (
    field "finding_id" (text f.finding_id) (
      field "run_id" (text f.run_id) (
        field "title" (text f.title) (
          field "description" (text f.description) (
            field "severity" (text f.severity) (
              field "category" (text f.category) (
                field "evidence_artifact_paths" (array (texts f.evidence_artifact_paths))
                  (field "recommended_action" (text f.recommended_action) end))))))))

unfoldable pub finding_values : List BacklogFinding → Items
unfolding finding_value
finding_values [] = nil
finding_values (f ∷ fs) = cons (finding_value f) (finding_values fs)

-- The backlog item of the finding at index `i`.
unfoldable pub backlog_item : ℕ → BacklogFinding → Value
backlog_item i f = object (
    field "item_id" (text ("BLI-" +s show_nat (i + 1))) (
      field "source_finding_id" (text f.finding_id) (
        field "title" (text f.title) (
          field "acceptance_criteria"
            (array
              (if f.recommended_action == "" then nil else cons (text f.recommended_action) nil))
            (field "status" (text "DRAFT") end)))))

unfoldable pub backlog_items : ℕ → List BacklogFinding → Items
unfolding backlog_item
backlog_items i [] = nil
backlog_items i (f ∷ fs) = cons (backlog_item i f) (backlog_items (i + 1) fs)

module _ (os : Platform) where
  -- An ANALYSIS_REPORT or other artifact of a handler that then passes with its path.
  unfoldable pub report_as :
      Identity → String → String → ArtifactType → String → ChainContext → Handling
  report_as self name data_text type command c =
      recorded
        (record_artifact os (log_request self name data_text type command LedgerResult.info) c)
        (λ art. ok_result self HandlerDecision.go_on (art.path ∷ []) [] end)

  unfoldable pub inventory_repo : ChainRequest → ChainContext → Handling
  unfolding report_as
  inventory_repo request c =
      let rows = inventory c.repo in
      report_as (command_of "RepoInventoryHandler") "repo_tree.log" (tree_text rows)
        ArtifactType.analysis_report "inventory"
        (record c { shared = set_field "files" (array (texts rows)) c.shared })

  unfoldable pub find_commands : ChainRequest → ChainContext → Handling
  unfolding report_as known_files
  find_commands request c = do
    files ← known_files c
    let commands = commands_value (discover_commands files)
    report_as (command_of "CommandDiscoveryHandler") "command_discovery.log" (os.dumps commands)
        ArtifactType.analysis_report "discover_commands"
        (record c { shared = set_field "commands" commands c.shared })

  unfoldable pub inventory_ci : ChainRequest → ChainContext → Handling
  unfolding report_as known_files
  inventory_ci request c = do
    files ← known_files c
    let ci = sorted_set (select (λ f. f) (λ f. starts ".github/workflows/" (slashes f)) files)
    report_as (command_of "CIInventoryHandler") "ci_inventory.log"
        (os.dumps (
          object
            (field "workflows" (array (texts ci)) (field "has_ci" (bool (not (is_nil ci))) end))))
        ArtifactType.analysis_report "" c

  unfoldable pub inventory_dependencies : ChainRequest → ChainContext → Handling
  unfolding report_as known_files
  inventory_dependencies request c = do
    files ← known_files c
    let deps = sorted_set (select (λ f. f) (λ f. member (last_part f) dependency_markers) files)
    report_as (command_of "DependencyInventoryHandler") "dependency_inventory.log"
        (os.dumps (object (field "dependency_files" (array (texts deps)) end)))
        ArtifactType.analysis_report "" c

  unfoldable pub check_read_only : ChainRequest → ChainContext → Handling
  unfolding changed_keys
  check_read_only request c =
      let self = check_of "ReadOnlyComplianceHandler" in
      let current = snapshot_repo os c.repo in
      some (
        if same_snapshot current c.repo_snapshot
            then ok_result self HandlerDecision.go_on [] [] end
            else fail_result self
                (("read-only mode modified repository files: "
                    +s join ", " (changed_keys current c.repo_snapshot))
                  ∷ [])
                false [] [],
        c,
      )

  unfoldable pub score_readiness : ChainRequest → ChainContext → Handling
  unfolding report_as known_files known_commands
  score_readiness request c = do
    files ← known_files c
    commands ← known_commands c
    let report = object (readiness_report files commands)
    report_as (command_of "AIReadinessScoringHandler") "codebase_ai_readiness_report.json"
        (os.dumps report) ArtifactType.analysis_report "assess_readiness"
        (record c { readiness_report = report; findings = readiness_findings files commands })

  unfoldable pub assess_strategy : ChainRequest → ChainContext → Handling
  unfolding report_as
  assess_strategy request c =
      report_as (check_of "StrategicProgrammingAssessmentHandler")
        "strategic_programming_assessment.json"
        (os.dumps (
          object (
            field "responsibility_owner" (text "analysis_verifier") (
              field "summary" (text "Read-only Strategic Programming assessment of AI readiness.")
                (field "readiness" c.readiness_report end)))))
        ArtifactType.strategic_review "" c

  unfoldable pub generate_findings : ChainRequest → ChainContext → Handling
  unfolding report_as
  generate_findings request c =
      let backed = map (backed_by c.request.run_id (map (λ a. a.path) c.artifacts)) c.findings in
      report_as (command_of "BacklogFindingGeneratorHandler") "ai_safety_gap_backlog.json"
        (os.dumps (array (finding_values backed))) ArtifactType.analysis_report ""
        (record c { findings = backed })

  unfoldable pub update_backlog : ChainRequest → ChainContext → Handling
  unfolding report_as
  update_backlog request c =
      report_as (command_of "BacklogUpdateHandler") "recommended_sprint_plan.json"
        (os.dumps (object (field "backlog_items" (array (backlog_items 0 c.findings)) end)))
        ArtifactType.analysis_report "" c

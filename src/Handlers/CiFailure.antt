-- ===== src/Handlers/CiFailure.antt =====
-- The CI failure handlers (backend/app/handlers/ci_failure.py); ReproductionHandler is in
-- Handlers/Reproduction.
pub mod Bounds
use agent_analysis.Prelude.{
  String, Bool, true, false, not, ◌&&◌, ◌||◌, ◌==◌, List, [], ◌∷◌, Option, none, some, ◌>>=◌,
  if◌then◌else◌, ◌+s◌, any, select, map, is_nil, length, lines, strip, lower, codes, occurs_in,
  join, starts, ends_in, slashes, sorted_set, pos,
}
use agent_analysis.Platform.{Platform}
use agent_analysis.Schemas.Json.{
  Value, Items, Fields, null, int, text, array, object, nil, cons, end, field, flag, get_or, truthy,
  texts, set_field,
}
use agent_analysis.Schemas.Reading.{as_object, as_text, iterate, texts_of}
use agent_analysis.Schemas.Ledger.{ArtifactType, LedgerResult}
use agent_analysis.Schemas.Chain.{ChainRequest, HandlerDecision}
use agent_analysis.Chains.Context.{ChainContext, record_artifact}
use agent_analysis.Workflows.Analysis.{inventory}
use agent_analysis.Handlers.Base.{Handling, ok_result, fail_result}
use agent_analysis.Handlers.Control.{check_of}
use agent_analysis.Handlers.Host.{Host, Tree, Reading, Loaded}
use agent_analysis.Handlers.Commands.{command_of, recorded, log_request}

-- `_FAILURE_MARKERS`
abbrev pub failure_markers : List String
failure_markers = "##[error]" ∷ "Traceback" ∷ "FAILED" ∷ "Error:" ∷ "error:" ∷ "exit code" ∷ []

-- `_CLASSIFIERS`
abbrev pub classifiers : List (String × List String)
classifiers =
    ("TYPE", "mypy" ∷ "pyright" ∷ "type error" ∷ "incompatible type" ∷ [])
    ∷ ("LINT", "flake8" ∷ "ruff" ∷ "eslint" ∷ "lint" ∷ "pycodestyle" ∷ "black --check" ∷ [])
    ∷ (
      "DEPENDENCY",
      "modulenotfounderror" ∷ "no module named" ∷ "could not find a version" ∷ "npm err"
          ∷ "pip install" ∷ "unresolved dependency" ∷ [],
    )
    ∷ ("BUILD", "build failed" ∷ "compilation" ∷ "webpack" ∷ "tsc " ∷ "make:" ∷ [])
    ∷ ("CONFIG", "yaml" ∷ "invalid workflow" ∷ "actions/" ∷ "workflow file" ∷ [])
    ∷ ("TEST", "pytest" ∷ "failed" ∷ "assertionerror" ∷ "test session" ∷ "npm test" ∷ [])
    ∷ []

-- `any(m.lower() in line.lower() for m in _FAILURE_MARKERS)`
unfoldable pub is_failing_line : String → Bool
is_failing_line line = any (λ m. occurs_in (lower m) (lower line)) failure_markers

unfoldable pub failing_lines : String → List String
failing_lines log = select strip is_failing_line (lines log)

-- The first category of which a keyword occurs in the text.
unfoldable pub classify : List (String × List String) → String → String
classify [] source = "UNKNOWN"
classify ((category, keywords) ∷ rest) source =
    if any (λ k. occurs_in (codes k) (lower source)) keywords
    then category
    else classify rest source

-- A workflow file, by its path.
unfoldable pub is_workflow : String → Bool
is_workflow f =
    starts ".github/workflows/" (slashes f)
    && (ends_in (codes ".yml") (lower f) || ends_in (codes ".yaml") (lower f))

-- `context.shared.get("files")` or the inventory, which is then kept.
unfoldable pub shared_files : ChainContext → Option (List String × ChainContext)
shared_files c =
    if flag "files" c.shared
    then (do
      items ← iterate (get_or "files" null c.shared)
      files ← texts_of items
      some (files, c))
    else some (
      inventory c.repo,
      record c { shared = set_field "files" (array (texts (inventory c.repo))) c.shared },
    )

-- What the parser keeps of a log.
unfoldable pub parsed_log : Fields → String → Fields
unfolding failing_lines
parsed_log ci log = field "workflow" (get_or "workflow" (text "") ci) (
    field "job" (get_or "job" (text "") ci) (
      field "failing_lines" (array (texts (failing_lines log)))
        (field "log_lines" (int (pos (length (lines log)))) end)))

-- The parse of the workflow files: those that load, and the broken ones with the first line of the
-- error. `none` is an exception.
pub record Parses : Type 0 where
  pub checked : List String
  pub broken : List String

module _ (os : Platform) where
  -- The branch that has a log.
  unfoldable pub parse_log : Fields → String → ChainContext → Handling
  unfolding parsed_log
  parse_log ci log c =
      let self = command_of "CIFailureLogParserHandler" in
      let parsed = parsed_log ci log in
      recorded
        (record_artifact os
          (log_request self "ci_failure_parsed.log" (os.dumps (object parsed))
            ArtifactType.command_output "ci_failure_log_parse" LedgerResult.info)
          (record c { shared = set_field "ci_failure" (object parsed) c.shared }))
        (λ art. ok_result self HandlerDecision.go_on (art.path ∷ []) [] end)

  unfoldable pub parse_ci_failure : ChainRequest → ChainContext → Handling
  parse_ci_failure request c =
      let given = get_or "ci_failure" null request.metadata in
      do
        ci ← if truthy given then as_object given else some end
        log ← if flag "log" ci then as_text (get_or "log" null ci) else some ""
        (if strip log == ""
            then some (
              fail_result (command_of "CIFailureLogParserHandler")
                  ("CI failure log required; cannot repair a CI failure without it" ∷ []) true []
                  ("supply request.metadata.ci_failure with {workflow, job, log}" ∷ []),
              c,
            )
            else parse_log ci (strip log) c)

  unfoldable pub classify_failure : ChainRequest → ChainContext → Handling
  unfolding classify
  classify_failure request c =
      let self = check_of "FailureClassificationHandler" in
      do
        parsed ← as_object (get_or "ci_failure" (object end) c.shared)
        let evidence = get_or "failing_lines" (array nil) parsed
        items ← iterate evidence
        found ← texts_of items
        let category = classify classifiers (join " " found)
        art ←
            record_artifact os
              (log_request self "ci_failure_classification.log"
                (os.dumps
                  (object (field "category" (text category) (field "evidence" evidence end))))
                ArtifactType.analysis_report "ci_failure_classify"
                (if category == "UNKNOWN" then LedgerResult.fail else LedgerResult.info))
              (record c { shared = set_field "ci_failure_category" (text category) c.shared })
        some (
          if category == "UNKNOWN"
              then fail_result self
                  ("unable to classify CI failure; manual triage required (no blind fix)" ∷ [])
                  false [] []
              else ok_result self HandlerDecision.go_on [] []
                  (field "category" (text category) end),
          art.1,
        )

module _ (os : Platform) (host : Host) where
  -- One workflow file: `none` is an exception, `some none` that it loads.
  unfoldable pub parse_workflow : Tree → String → Option (Option String)
  parse_workflow tree path = elim (host.read tree path) [
    | Reading.no_file ↦ none
    | Reading.unreadable ↦ none
    | Reading.content source ↦ elim (host.load_yaml source) [
      | Loaded.loaded ↦ some none
      | Loaded.raised ↦ none
      | Loaded.malformed reason ↦ elim (lines reason) [
        | [] ↦ none
        | first ∷ more ↦ some (some (path +s ": " +s first))
      ]
    ]
  ]

  unfoldable pub parse_workflows : Tree → List String → Option Parses
  unfolding parse_workflow
  parse_workflows tree [] = some (record { checked = []; broken = [] })
  parse_workflows tree (path ∷ paths) = do
    parse ← parse_workflow tree path
    rest ← parse_workflows tree paths
    some (elim parse [
      | none ↦ record rest { checked = path ∷ rest.checked }
      | some reason ↦ record rest { broken = reason ∷ rest.broken }
    ])

  unfoldable pub report_workflows : List String → ChainContext → Handling
  report_workflows workflows c =
      let self = check_of "CIConfigValidationHandler" in
      do
        parses ← parse_workflows c.repo workflows
        art ←
            record_artifact os
              (log_request self "ci_config_validation.log"
                (os.dumps (
                  object (
                    field "checked" (array (texts parses.checked))
                      (field "broken" (array (texts parses.broken)) end))))
                ArtifactType.command_output "ci_config_validate"
                (if is_nil parses.broken then LedgerResult.pass else LedgerResult.fail))
              c
        some (
          if is_nil parses.broken
              then ok_result self HandlerDecision.go_on [] [] end
              else fail_result self (map (λ b. "invalid CI workflow: " +s b) parses.broken) false []
                  [],
          art.1,
        )

  unfoldable pub validate_ci_config : ChainRequest → ChainContext → Handling
  unfolding shared_files report_workflows
  validate_ci_config request c =
      let self = check_of "CIConfigValidationHandler" in
      do
        shared ← shared_files c
        let workflows = sorted_set (select (λ f. f) is_workflow shared.0)
        (if is_nil workflows
            then recorded
                (record_artifact os
                  (log_request self "ci_config_validation.log"
                    (os.dumps (
                      object (
                        field "workflows" (array nil)
                          (field "status" (text "NOT_APPLICABLE") end))))
                    ArtifactType.command_output "ci_config_validate" LedgerResult.info)
                  shared.1)
                (λ art. ok_result self HandlerDecision.go_on [] [] end)
            else report_workflows workflows shared.1)

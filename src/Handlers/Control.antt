-- ===== src/Handlers/Control.antt =====
-- The control handlers (backend/app/handlers/control.py).
use agent_analysis.Prelude.{
  String, true, false, not, ◌==◌, ◌+s◌, List, [], ◌∷◌, none, some, if◌then◌else◌, is_nil, ◌&&◌,
}
use agent_analysis.Platform.{Platform}
use agent_analysis.Schemas.Constants.{Decision, is_implementation}
use agent_analysis.Schemas.GateResult.{of}
use agent_analysis.Schemas.Json.{end, flag}
use agent_analysis.Schemas.Ledger.{ArtifactType, LedgerResult}
use agent_analysis.Schemas.Reviews.{ScrumMapping}
use agent_analysis.Schemas.Chain.{ChainRequest, canonical_violations, HandlerType, HandlerDecision}
use agent_analysis.Storage.EvidenceWriter
use agent_analysis.Chains.Context.{ChainContext, ArtifactRequest, record_artifact}
use agent_analysis.Gates.Manifest.{manifest_gate}
use agent_analysis.Gates.Scrum.{scrum_gate}
use agent_analysis.Gates.Evidence.{evidence_gate}
use agent_analysis.Handlers.Base.{Handler, Handling, Identity, ok_result, fail_result, from_gates}

abbrev pub check_of : String → Identity
check_of name = record { name = name; handler_type = HandlerType.pure_check }

-- A class with no `can_handle` of its own takes every request.
abbrev pub handler_of : Identity → (ChainRequest → ChainContext → Handling) → Handler
handler_of self handle = record {
  name = self.name;
  handler_type = self.handler_type;
  can_handle = λ request. true;
  handle = handle;
}

unfoldable pub validate_manifest : ChainRequest → ChainContext → Handling
validate_manifest request c =
    let self = check_of "ManifestValidationHandler" in
    let envelope = of "chain_envelope" (canonical_violations request) in
    elim c.manifest [
      | none ↦ some (from_gates self (envelope ∷ []) false, c)
      | some manifest ↦ some (
        from_gates self (envelope ∷ manifest_gate manifest ∷ []) false,
        record c {
          coding_agent_run_id = manifest.coding_agent_run_id;
          verifier_run_id = manifest.verifier_run_id;
        },
      )
    ]

unfoldable pub mapping_of : ChainRequest → ChainContext → ScrumMapping
mapping_of request c = elim c.scrum [
  | some mapping ↦ mapping
  | none ↦ record {
    product_backlog_item_id = request.scrum.product_backlog_item_id;
    product_backlog_item_title = "";
    sprint_id = "";
    sprint_goal = request.scrum.sprint_goal;
    sprint_backlog_task_id = request.scrum.sprint_backlog_task_id;
    acceptance_criteria = request.scrum.acceptance_criteria;
    definition_of_done_version = request.scrum.definition_of_done_version;
    increment_candidate = false;
    supports_sprint_goal = true;
  }
]

unfoldable pub map_scrum : ChainRequest → ChainContext → Handling
unfolding mapping_of
map_scrum request c =
    let mapping = mapping_of request c in
    some (
      from_gates (check_of "ScrumMappingHandler") (scrum_gate mapping c.locked_dod_version ∷ [])
          false,
      record c { scrum = some mapping },
    )

unfoldable pub validate_scope : ChainRequest → ChainContext → Handling
validate_scope request c =
    let self = check_of "ScopeValidationHandler" in
    if is_implementation request.mode && is_nil request.scope.files_in_scope
    then some (fail_result self ("files_in_scope empty for implementation run" ∷ []) false [] [], c)
    else some (ok_result self HandlerDecision.go_on [] [] end, c)

-- The artifact types that the evidence gate asks for.
unfoldable pub required_evidence : ChainRequest → List String
required_evidence request =
    if is_implementation request.mode
    then if flag "tests_not_applicable" request.metadata then "DIFF" ∷ [] else "DIFF" ∷ "TEST" ∷ []
    else "ANALYSIS_REPORT" ∷ []

unfoldable pub check_evidence : ChainRequest → ChainContext → Handling
unfolding required_evidence
check_evidence request c = some (
  from_gates (check_of "EvidenceGateHandler")
      (evidence_gate c.evidence.ledger c.request.run_id c.request.task_id
          (required_evidence request)
        ∷ [])
      false,
  c,
)

-- `decision if decision != Decision.PENDING else Decision.BLOCKED`
unfoldable pub final_decision : Decision → Decision
final_decision Decision.pending = Decision.blocked
final_decision d = d

unfoldable pub stop_or_loop : ChainRequest → ChainContext → Handling
unfolding final_decision
stop_or_loop request c = some (
  ok_result (check_of "StopOrLoopHandler") HandlerDecision.stop [] [] end,
  record c { evidence = EvidenceWriter.finalize c.evidence (final_decision c.verifier_decision) },
)

unfoldable pub lock_request : String → ArtifactRequest
lock_request locked = record {
  name = "definition_of_done_lock.json";
  data_text = "{\"definition_of_done_version\": \"" +s locked +s "\"}";
  artifact_type = ArtifactType.scrum_mapping;
  result = LedgerResult.info;
  command = "";
  recorded_by = "DefinitionOfDoneLockHandler";
}

module _ (os : Platform) where
  unfoldable pub lock_with : ChainContext → String → Handling
  unfolding lock_request
  lock_with c locked =
      let c' = record c { locked_dod_version = some locked } in
      elim (record_artifact os (lock_request locked) c') [
        | none ↦ none
        | some (artifact, c'') ↦ some (
          ok_result (check_of "DefinitionOfDoneLockHandler") HandlerDecision.go_on [] [] end,
          c'',
        )
      ]

  unfoldable pub lock_definition_of_done : ChainRequest → ChainContext → Handling
  unfolding lock_with
  lock_definition_of_done request c =
      let self = check_of "DefinitionOfDoneLockHandler" in
      let version = request.scrum.definition_of_done_version in
      if version == ""
      then some (fail_result self ("Definition of Done version missing" ∷ []) false [] [], c)
      else elim c.locked_dod_version [
        | none ↦ lock_with c version
        | some locked ↦
            if not (locked == version)
            then some (fail_result self ("Definition of Done changed mid-run" ∷ []) false [] [], c)
            else lock_with c locked
      ]

  -- `HANDLERS`
  unfoldable pub control_handlers : List Handler
  unfolding validate_manifest map_scrum lock_definition_of_done validate_scope check_evidence
      stop_or_loop
  control_handlers =
      handler_of (check_of "ManifestValidationHandler") validate_manifest
      ∷ handler_of (check_of "ScrumMappingHandler") map_scrum
      ∷ handler_of (check_of "DefinitionOfDoneLockHandler") lock_definition_of_done
      ∷ handler_of (check_of "ScopeValidationHandler") validate_scope
      ∷ handler_of (check_of "EvidenceGateHandler") check_evidence
      ∷ handler_of (check_of "StopOrLoopHandler") stop_or_loop
      ∷ []

-- ===== src/Handlers/Verification.antt =====
-- The verifier handlers (backend/app/handlers/verification.py), the only ones whose status is a
-- verdict.
use agent_analysis.Prelude.{
  ◌+◌, String, Bool, false, not, ◌==◌, ◌&&◌, List, [], ◌∷◌, none, some, if◌then◌else◌, any, all,
}
use agent_analysis.Platform.{Platform}
use agent_analysis.Schemas.Constants.{Decision, RunType}
use agent_analysis.Schemas.GateResult.{GateResult, passed}
use agent_analysis.Schemas.Json.{Value, Fields, text, array, object, end, field, texts, flag}
use agent_analysis.Schemas.Ledger.{ArtifactType, LedgerResult}
use agent_analysis.Schemas.Reviews.{StrategicProgramming}
use agent_analysis.Schemas.Chain.{ChainRequest, HandlerType, HandlerStatus}
use agent_analysis.Chains.Context.{ChainContext, ArtifactRequest, record_artifact}
use agent_analysis.Gates.Release.{no_self_certification_gate, Certification}
use agent_analysis.Gates.Evidence.{evidence_gate}
use agent_analysis.Gates.Tests.{test_gate}
use agent_analysis.Gates.Strategic.{strategic_programming_gate}
use agent_analysis.Gates.Scope.{scope_gate, Scope}
use agent_analysis.Handlers.Base.{Handler, Handling, Identity, from_gates, failing_reasons}
use agent_analysis.Handlers.Control.{handler_of}

abbrev pub verifier_of : String → Identity
verifier_of name = record { name = name; handler_type = HandlerType.verifier }

-- `x or default`
unfoldable pub or_default : String → String → String
or_default s default = if s == "" then default else s

-- StrategicProgramming()
abbrev pub no_strategic : StrategicProgramming
no_strategic = record {
  responsibility_owner = "";
  complexity_risks = record {
    change_amplification = "";
    cognitive_load = "";
    unknown_unknowns = "";
  };
  design_options = [];
  selected_design = "";
  interface_contract = "";
  complexity_hidden_where = "";
  errors_designed_out = [];
  known_design_debt = [];
  introduces_shallow_passthrough = false;
  complexity_leaks_into_callers = false;
  error_handling_scattered = false;
  invalid_states_unhandled = false;
  unjustified_duplication = false;
  increases_change_amplification = false;
  works_but_harder_to_change = false;
}

unfoldable pub strategic_of : ChainContext → StrategicProgramming
strategic_of c = elim c.strategic [ none ↦ no_strategic | some s ↦ s ]

-- The call of the self-certification gate; what it does not name has its default.
unfoldable pub certification : ChainContext → Bool → Certification
certification c summary_used = record {
  coding_agent_run_id = c.coding_agent_run_id;
  verifier_run_id = c.verifier_run_id;
  coding_agent_id = "";
  verifier_id = "";
  verifier_decision = Decision.pending;
  agent_summary_used_as_evidence = summary_used;
  executor_marked_done = false;
}

unfoldable pub analysis_gates : ChainContext → List GateResult
unfolding certification
analysis_gates c =
    no_self_certification_gate (certification c false)
    ∷ evidence_gate c.evidence.ledger c.request.run_id c.request.task_id ("ANALYSIS_REPORT" ∷ [])
    ∷ []

unfoldable pub required_types : Bool → List String
required_types tests_applicable = if tests_applicable then "DIFF" ∷ "TEST" ∷ [] else "DIFF" ∷ []

unfoldable pub scope_of : ChainRequest → Scope
scope_of request = record {
  files_in_scope = request.scope.files_in_scope;
  files_out_of_scope = request.scope.files_out_of_scope;
  approved_scope_changes = [];
  protected_files = [];
  harness_files = [];
  is_framework_change_task = false;
}

abbrev status_str : Bool → Value
status_str b = text (if b then "PASS" else "FAIL")

-- by_name[name].passed; the names of the gates differ, and every name asked for is there.
gate_passed : String → List GateResult → Bool
gate_passed name gates = any (λ g. g.gate_name == name && passed g) gates

-- The last three fields of both reports.
verdict_fields : List GateResult → String → Fields
verdict_fields gates now = field "decision" (text (if all passed gates then "PASS" else "FAIL")) (
    field "failure_reasons" (array (texts (failing_reasons gates)))
      (field "timestamp" (text now) end))

report_fields : ChainContext → Bool → Fields → Fields
report_fields c independent rest = field "task_id" (text c.request.task_id) (
    field "run_id" (text c.request.run_id) (
      field "verifier_run_id" (text c.verifier_run_id) (
        field "coding_agent_run_id" (text c.coding_agent_run_id)
          (field "same_agent_verifier_check" (status_str independent) rest))))

-- The arguments with which both handlers record their report.
unfoldable pub report_request : String → HandlerStatus → String → ArtifactRequest
report_request name status report = record {
  name = "verifier_report.json";
  data_text = report;
  artifact_type = ArtifactType.verifier_report;
  result = elim status [ HandlerStatus.pass ↦ LedgerResult.pass | _ ↦ LedgerResult.fail ];
  command = "";
  recorded_by = name;
}

module _ (os : Platform) where
  unfoldable pub impl_gates : ChainRequest → ChainContext → List GateResult
  unfolding certification required_types strategic_of scope_of
  impl_gates request c =
      let tests_applicable = not (flag "tests_not_applicable" request.metadata) in
      no_self_certification_gate (certification c (not c.agent_summary_quarantined))
      ∷ test_gate c.test_outcomes RunType.implementation tests_applicable
      ∷ evidence_gate c.evidence.ledger c.request.run_id c.request.task_id
          (required_types tests_applicable)
      ∷ strategic_programming_gate (strategic_of c)
      ∷ scope_gate os.fnmatch c.changed_files (scope_of request)
      ∷ []

  analysis_report_json : ChainContext → List GateResult → String
  unfolding report_fields verdict_fields
  analysis_report_json c gates = os.dumps (
      object (
        report_fields c (not (c.verifier_run_id == c.coding_agent_run_id))
          (verdict_fields gates (os.utcnow c.clock))))

  impl_report_json : ChainContext → List GateResult → Bool → String
  unfolding report_fields verdict_fields gate_passed
  impl_report_json c gates tests_applicable = os.dumps (
      object (
        report_fields c (gate_passed "no_self_certification_gate" gates) (
          field "test_status"
            (if tests_applicable
              then status_str (gate_passed "test_gate" gates)
              else text "NOT_APPLICABLE")
            (field "scope_status" (status_str (gate_passed "scope_gate" gates)) (
              field "evidence_status" (status_str (gate_passed "evidence_gate" gates))
                (verdict_fields gates (os.utcnow c.clock)))))))

  -- The last statements of both handlers: the report reads the clock, then it is recorded.
  unfoldable pub report_verdict : String → List GateResult → String → ChainContext → Handling
  unfolding report_request
  report_verdict name gates report c =
      let result = from_gates (verifier_of name) gates false in
      elim (record_artifact os (report_request name result.status report)
        (record c { clock = c.clock + 1 })) [
          | none ↦ none
          | some (artifact, c') ↦ some (result, c')
        ]

  unfoldable pub verify_analysis : ChainRequest → ChainContext → Handling
  unfolding or_default report_verdict analysis_gates analysis_report_json
  verify_analysis request c =
      let c' = record c { verifier_run_id = or_default c.verifier_run_id "analysis-verifier" } in
      report_verdict "AnalysisVerifierHandler" (analysis_gates c')
        (analysis_report_json c' (analysis_gates c')) c'

  unfoldable pub verify_implementation : ChainRequest → ChainContext → Handling
  unfolding or_default report_verdict impl_gates impl_report_json
  verify_implementation request c =
      let c' = record c { verifier_run_id = or_default c.verifier_run_id "impl-verifier" } in
      report_verdict "ImplementationVerifierHandler" (impl_gates request c')
        (impl_report_json c' (impl_gates request c')
          (not (flag "tests_not_applicable" request.metadata)))
        c'

  -- `HANDLERS`
  unfoldable pub verification_handlers : List Handler
  unfolding verify_analysis verify_implementation
  verification_handlers =
      handler_of (verifier_of "AnalysisVerifierHandler") verify_analysis
      ∷ handler_of (verifier_of "ImplementationVerifierHandler") verify_implementation
      ∷ []

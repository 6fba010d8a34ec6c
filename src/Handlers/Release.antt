-- ===== src/Handlers/Release.antt =====
-- The PR and evaluation handlers (backend/app/handlers/pr.py, evaluation.py).
use agent_analysis.Prelude.{
  String, Bool, true, false, not, ◌+s◌, List, [], ◌∷◌, Option, none, some, if◌then◌else◌, is_nil,
  length, select,
}
use agent_analysis.Platform.{Platform}
use agent_analysis.Schemas.Constants.{Decision, decision_value, is_pass}
use agent_analysis.Schemas.GateResult.{GateResult, passed}
use agent_analysis.Schemas.Json.{Value, Fields, bool, float, text, array, object, end, field, texts}
use agent_analysis.Schemas.Ledger.{ArtifactType, Artifact, LedgerEntry, LedgerResult}
use agent_analysis.Schemas.Chain.{
  ChainRequest, HandlerType, HandlerDecision, PrStatus, pr_status_value,
}
use agent_analysis.Chains.Context.{ChainContext, ArtifactRequest, record_artifact}
use agent_analysis.Gates.Release.{pr_gate, PullRequest}
use agent_analysis.Handlers.Base.{Handler, Handling, Identity, ok_result, skip_result}
use agent_analysis.Handlers.Control.{handler_of}

abbrev pub pr_action_of : String → Identity
pr_action_of name = record { name = name; handler_type = HandlerType.pr_action }

-- The call of `pr_gate`; what it does not name has its default.
unfoldable pub gated_request : Decision → String → PullRequest
gated_request decision pr_skip_reason = record {
  verifier_decision = decision;
  pr_url = "";
  pr_skip_reason = pr_skip_reason;
  auto_merge = false;
  auto_deploy = false;
  merge_occurred = false;
  deploy_occurred = false;
  pushed_to_protected_branch = false;
}

unfoldable pub pr_metadata : PrStatus → Fields
unfolding pr_status_value
pr_metadata status = field "pr_status" (text (pr_status_value status)) end

-- `_GATED_PR_BODY.format(…)`
unfoldable pub pr_body : String → String → String
pr_body run_id task_id =
    "# Gated Pull Request (candidate)\n\nRun ID: " +s run_id +s "\nTask ID: " +s task_id
    +s "\nVerifier decision: PASS\n\nAuto-merge: NO\nAuto-deploy: NO\nHuman or external authorized approval required: YES\n"

-- gate.model_dump() of the PR gate
gate_dump : GateResult → Value
gate_dump g = object (
    field "gate_name" (text g.gate_name) (
      field "status" (text (if passed g then "PASS" else "FAIL")) (
        field "reasons" (array (texts g.reasons))
          (field "required_corrections" (array (texts g.required_corrections)) end))))

pr_report : GateResult → Value
unfolding gate_dump pr_status_value
pr_report g = object (
    field "pr_status" (text (pr_status_value PrStatus.gated)) (
      field "auto_merge" (bool false) (
        field "auto_deploy" (bool false)
          (field "human_approval_required" (bool true) (field "pr_gate" (gate_dump g) end)))))

is_not_fail : LedgerEntry → Bool
is_not_fail e = elim e.result [ LedgerResult.fail ↦ false | _ ↦ true ]

unfoldable pub memory_artifact : Bool → String × Value
memory_artifact true = (
  "memory_update_record.json",
  object (field "source" (text "verified_evidence") (field "verifier_decision" (text "PASS") end)),
)
memory_artifact false = (
  "memory_update_skip_reason.json",
  object (
      field "skipped" (bool true)
        (field "reason" (text "no verifier PASS; memory not updated") end)),
)

-- The arguments of record_artifact, with the defaults of `result` and `command`.
unfoldable pub default_request : String → String → String → ArtifactType → ArtifactRequest
default_request handler_name name data_text type = record {
  name = name;
  data_text = data_text;
  artifact_type = type;
  result = LedgerResult.info;
  command = "";
  recorded_by = handler_name;
}

module _ (os : Platform) where
  unfoldable pub record_as :
      String → String → String → ArtifactType → ChainContext → Option (Artifact × ChainContext)
  unfolding default_request
  record_as handler_name name data_text type c =
      record_artifact os (default_request handler_name name data_text type) c

  unfoldable pub gate_pr : ChainRequest → ChainContext → Handling
  unfolding record_as gated_request pr_metadata pr_body pr_report
  gate_pr request c =
      let self = pr_action_of "PRGateHandler" in
      if not (is_pass c.verifier_decision)
      then some (
        ok_result self HandlerDecision.go_on []
            (pr_gate (gated_request c.verifier_decision "") ∷ []) (pr_metadata PrStatus.not_ready),
        c,
      )
      else (let gate = pr_gate (
            gated_request c.verifier_decision
              "local gated PR body written; remote push deferred") in
          elim (record_as self.name "pr_body.md" (pr_body c.request.run_id c.request.task_id)
            ArtifactType.pr c) [
              | none ↦ none
              | some (body, c') ↦
                  elim (record_as self.name "pr_gate_report.json" (os.dumps (pr_report gate))
                    ArtifactType.pr c') [
                      | none ↦ none
                      | some (report, c'') ↦ some (
                        ok_result self HandlerDecision.go_on (body.path ∷ []) (gate ∷ [])
                            (pr_metadata PrStatus.gated),
                        c'',
                      )
                    ]
            ])

  unfoldable pub create_pr : ChainRequest → ChainContext → Handling
  unfolding record_as pr_metadata
  create_pr request c =
      let self = pr_action_of "PRCreationHandler" in
      if not (is_pass c.verifier_decision)
      then some (skip_result self "verifier PASS required before PR creation", c)
      else elim (record_as self.name "pr_url.txt"
          "PENDING: remote PR creation deferred; PR remains gated, no merge, no deploy"
          ArtifactType.pr c) [
            | none ↦ none
            | some (art, c') ↦ some (
              ok_result self HandlerDecision.go_on (art.path ∷ []) [] (pr_metadata PrStatus.gated),
              c',
            )
          ]

  -- `round(non_fail / len(entries), 4) if entries else 0.0`
  unfoldable pub score_of : List LedgerEntry → String
  unfolding is_not_fail
  score_of entries =
      if is_nil entries
      then "0.0"
      else os.round_ratio (length (select (λ e. e) is_not_fail entries)) (length entries)

  unfoldable pub evaluate : ChainRequest → ChainContext → Handling
  unfolding score_of record_as
  evaluate request c =
      let self : Identity = record {
        name = "EvaluatorHandler";
        handler_type = HandlerType.evaluator;
      } in
      let score = score_of c.evidence.ledger.ledger_entries in
      let report = object (
        field "eval_score" (float score) (
          field "verifier_decision" (text (decision_value c.verifier_decision)) (
            field "note" (text "evaluator scores quality and cannot override the verifier")
              end))) in
      elim (record_as self.name "evaluation_report.json" (os.dumps report)
        ArtifactType.analysis_report (record c { eval_score = some score })) [
          | none ↦ none
          | some (art, c') ↦ some (ok_result self HandlerDecision.go_on (art.path ∷ []) [] end, c')
        ]

  unfoldable pub update_memory : ChainRequest → ChainContext → Handling
  unfolding record_as memory_artifact
  update_memory request c =
      let self : Identity = record {
        name = "MemoryUpdateHandler";
        handler_type = HandlerType.pure_check;
      } in
      let (name, report) = memory_artifact (is_pass c.verifier_decision) in
      elim (record_as self.name name (os.dumps report) ArtifactType.analysis_report c) [
        | none ↦ none
        | some (art, c') ↦ some (ok_result self HandlerDecision.go_on (art.path ∷ []) [] end, c')
      ]

  -- `HANDLERS` of both modules
  unfoldable pub release_handlers : List Handler
  unfolding gate_pr create_pr evaluate update_memory
  release_handlers =
      handler_of (pr_action_of "PRGateHandler") gate_pr
      ∷ handler_of (pr_action_of "PRCreationHandler") create_pr
      ∷ handler_of (record { name = "EvaluatorHandler"; handler_type = HandlerType.evaluator })
          evaluate
      ∷ handler_of (record { name = "MemoryUpdateHandler"; handler_type = HandlerType.pure_check })
          update_memory
      ∷ []

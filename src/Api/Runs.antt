-- ===== src/Api/Runs.antt =====
-- The run endpoints (backend/app/api/routes_runs.py). A handler takes the repository and returns its
-- reply with the repository that it leaves. `fresh` is what `uuid.uuid4().hex[:12]` gives.
pub mod Honoured
use agent_analysis.Prelude.{
  ℕ, String, Bool, true, false, not, ◌==◌, ◌&&◌, ◌+s◌, List, [], Option, none, some, if◌then◌else◌,
  map,
}
use agent_analysis.Schemas.Constants.{Decision, is_pass}
use agent_analysis.Schemas.GateResult.{GateResult, passed}
use agent_analysis.Schemas.Json.{Value}
use agent_analysis.Schemas.Ledger.{EvidenceLedger}
use agent_analysis.Schemas.Manifest.{RunManifest}
use agent_analysis.Schemas.Reviews.{VerifierReport}
use agent_analysis.Gates.Manifest.{manifest_gate}
use agent_analysis.Gates.Release.{no_self_certification_gate, pr_gate, PullRequest, Certification}
use agent_analysis.Gates.Evidence.{evidence_gate}
use agent_analysis.Api.Records.{RunRecord, Repository, save, get}

-- The `detail` of an HTTPException.
pub data Detail : Type 0 where
  message : String → Detail
  gate : GateResult → Detail
  violations : List String → Detail

pub data Reply {ℓ} (A : Type ℓ) : Type ℓ where
  ok : A → Reply A
  http_error : ℕ → Detail → Reply A

abbrev pub not_found {ℓ} : {A : Type ℓ} → Reply A
not_found = Reply.http_error 404 (Detail.message "run not found")

pub record CreateRunResponse : Type 0 where
  pub run_id : String
  pub state : String
  pub manifest_gate : GateResult

abbrev pub new_record : String → RunManifest → RunRecord
new_record run_id manifest = record {
  run_id = run_id;
  manifest = manifest;
  state = "INTAKE";
  verifier_report = none;
  chain_result = none;
  chain_execution_result = none;
  llm_invocations = [];
  tenant_id = none;
  attempts = [];
  artifacts = [];
}

unfoldable pub create_run : String → RunManifest → Repository → Reply CreateRunResponse × Repository
create_run fresh manifest repo =
    let checked = manifest_gate manifest in
    let run_id = if manifest.run_id == "" then "run-" +s fresh else manifest.run_id in
    if not (passed checked) then (Reply.http_error 422 (Detail.gate checked), repo) else (
      Reply.ok (record { run_id = run_id; state = "INTAKE"; manifest_gate = checked }),
      save (new_record run_id manifest) repo,
    )

unfoldable pub list_runs : Repository → List (String × String)
list_runs repo = map (λ r. (r.run_id, r.state)) repo

-- `record.verifier_report.decision if record.verifier_report else Decision.PENDING`
unfoldable pub decision_of : RunRecord → Decision
decision_of r = elim r.verifier_report [ none ↦ Decision.pending | some report ↦ report.decision ]

pub record RunView : Type 0 where
  pub run_id : String
  pub state : String
  pub manifest : RunManifest
  pub verifier_decision : Decision

unfoldable pub get_run : String → Repository → Reply RunView
unfolding decision_of
get_run run_id repo = elim (get run_id repo) [
  | none ↦ not_found
  | some r ↦ Reply.ok (record {
    run_id = r.run_id;
    state = r.state;
    manifest = r.manifest;
    verifier_decision = decision_of r;
  })
]

unfoldable pub get_run_state : String → Repository → Reply (String × String)
get_run_state run_id repo = elim (get run_id repo) [
  | none ↦ not_found
  | some r ↦ Reply.ok (r.run_id, r.state)
]

-- The arguments that `verify_run` gives to the self-certification gate.
unfoldable pub certification_of : VerifierReport → EvidenceLedger → Certification
certification_of report ledger = record {
  coding_agent_run_id = report.coding_agent_run_id;
  verifier_run_id = report.verifier_run_id;
  coding_agent_id = "";
  verifier_id = "";
  verifier_decision = report.decision;
  agent_summary_used_as_evidence = ledger.agent_self_certification_used;
  executor_marked_done = false;
}

unfoldable pub certify : VerifierReport → EvidenceLedger → GateResult
unfolding certification_of
certify report ledger = no_self_certification_gate (certification_of report ledger)

-- The decision that stands: a PASS only when both gates pass.
unfoldable pub effective_decision : Decision → GateResult → GateResult → Decision
effective_decision reported self_cert evidence =
    if is_pass reported && not (passed self_cert && passed evidence)
    then Decision.fail
    else reported

pub record VerifyReply : Type 0 where
  pub run_id : String
  pub reported_decision : Decision
  pub effective_decision : Decision
  pub no_self_certification_gate : GateResult
  pub evidence_gate : GateResult

-- The record with the report, its decision replaced.
unfoldable pub verified : RunRecord → VerifierReport → Decision → RunRecord
verified r report effective = record r {
  verifier_report = some (record report { decision = effective });
  state = "VERIFY";
}

unfoldable pub verify_run :
    String → VerifierReport → EvidenceLedger → Repository → Reply VerifyReply × Repository
unfolding certify effective_decision verified
verify_run run_id report ledger repo = elim (get run_id repo) [
  | none ↦ (not_found, repo)
  | some r ↦
      let self_cert = certify report ledger in
      let evidence = evidence_gate ledger r.run_id report.task_id [] in
      let effective = effective_decision report.decision self_cert evidence in
      (
        Reply.ok (record {
          run_id = r.run_id;
          reported_decision = report.decision;
          effective_decision = effective;
          no_self_certification_gate = self_cert;
          evidence_gate = evidence;
        }),
        save (verified r report effective) repo,
      )
]

pub record PrReply : Type 0 where
  pub run_id : String
  pub pr_url : String
  pub pr_gate : GateResult
  pub auto_merge : Bool
  pub auto_deploy : Bool
  pub human_approval_required : Bool

unfoldable pub pull_request_of : RunRecord → String → String → PullRequest
unfolding decision_of
pull_request_of r pr_url pr_skip_reason = record {
  verifier_decision = decision_of r;
  pr_url = pr_url;
  pr_skip_reason = pr_skip_reason;
  auto_merge = r.manifest.auto_merge;
  auto_deploy = r.manifest.auto_deploy;
  merge_occurred = false;
  deploy_occurred = false;
  pushed_to_protected_branch = false;
}

unfoldable pub create_or_update_pr :
    String → String → String → Repository → Reply PrReply × Repository
unfolding decision_of
create_or_update_pr run_id pr_url pr_skip_reason repo = elim (get run_id repo) [
  | none ↦ (not_found, repo)
  | some r ↦
      let checked = pr_gate (pull_request_of r pr_url pr_skip_reason) in
      if not (is_pass (decision_of r))
      then (Reply.http_error 409 (Detail.message "verifier PASS required before PR creation"), repo)
      else if not (passed checked)
      then (Reply.http_error 422 (Detail.gate checked), repo)
      else (
        Reply.ok (record {
          run_id = r.run_id;
          pr_url = pr_url;
          pr_gate = checked;
          auto_merge = false;
          auto_deploy = false;
          human_approval_required = true;
        }),
        save (record r { state = "PR_GATE" }) repo,
      )
]

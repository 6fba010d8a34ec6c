-- ===== src/Api/Runs/Honoured.antt =====
-- When the API honours a reported PASS, and when it lets a pull request through.
use agent_analysis.Prelude.{
  String, true, false, ◌≡◌, ◌≢◌, refl, ◌↔◌, some, ◌∙◌, ◌&&◌, arith, eq_iff, [], Bool-cases, inl,
  inr,
}
use agent_analysis.Schemas.Constants.{Decision, is_pass}
use agent_analysis.Schemas.GateResult.{GateResult, passed}
use agent_analysis.Schemas.Ledger.{EvidenceLedger}
use agent_analysis.Schemas.Reviews.{VerifierReport}
use agent_analysis.Gates.Evidence.{evidence_gate}
use agent_analysis.Gates.Evidence.Supports.{Supports, evidence_gate-passed_iff}
use agent_analysis.Gates.Release.Admits.{pr_gate-passed_iff, no_self_certification_gate-passed_iff}
use agent_analysis.Api.Records.{RunRecord, Repository, get, get-save}
use agent_analysis.Api.Runs.{
  Reply, certification_of, verified, certify, effective_decision, verify_run, VerifyReply,
  decision_of, pull_request_of, create_or_update_pr, PrReply,
}

-- What an honoured PASS stands on.
pub record IsHonoured (report : VerifierReport) (ledger : EvidenceLedger) (run_id : String)
    : Type 0 where
  pub reported : report.decision ≡ Decision.pass
  pub independent :
      report.coding_agent_run_id ≢ "" → report.coding_agent_run_id ≢ report.verifier_run_id
  pub supported : Supports ledger run_id report.task_id []

pub effective_iff :
    (report : VerifierReport) (ledger : EvidenceLedger) (run_id : String)
    → (effective_decision report.decision
          (certify report ledger)
          (evidence_gate ledger run_id report.task_id [])
        ≡ Decision.pass)
      ↔ IsHonoured report ledger run_id
unfolding effective_decision certify certification_of
effective_iff report ledger run_id =
    let certified = no_self_certification_gate-passed_iff (certification_of report ledger) in
    let supported = evidence_gate-passed_iff ledger run_id report.task_id [] in
    (
      λ h.
          let p : report.decision ≡ Decision.pass = ground arith in
          let independent = certified.0 (ground arith) in
          record {
            reported = p;
            independent = independent.runs;
            supported = supported.0 (ground arith);
          },
      λ v.
          let c = certified.1 (record {
            runs = v.independent;
            agents = λ h. absurd (h refl);
            no_narrative = v.supported.no_self_certification;
            done_verified = λ h. cc;
          }) in
          let e = supported.1 v.supported in let p = v.reported in ground arith,
    )

-- What `verify_run` does to the record `r`, which the repository then holds as `v`.
pub record IsVerified (report : VerifierReport) (ledger : EvidenceLedger) (r v : RunRecord)
    (reply : VerifyReply) : Type 0 where
  pub moved : v.state ≡ "VERIFY"
  pub kept : v.manifest ≡ r.manifest
  pub stands : decision_of v ≡ reply.effective_decision
  pub honoured : (reply.effective_decision ≡ Decision.pass) ↔ IsHonoured report ledger r.run_id
  pub lowered :
      reply.effective_decision ≢ report.decision → reply.effective_decision ≡ Decision.fail

lowered_lem :
    (d : Decision) (a b : GateResult)
    → effective_decision d a b ≢ d
    → effective_decision d a b ≡ Decision.fail
unfolding effective_decision
lowered_lem Decision.pass a b h = elim (Bool-cases (passed a && passed b)) [
  | inl t ↦ absurd (h (ground arith))
  | inr f ↦ ground arith
]
lowered_lem Decision.fail a b h = refl
lowered_lem Decision.blocked a b h = absurd (h refl)
lowered_lem Decision.pending a b h = absurd (h refl)

-- Verifying a registered run replies, and leaves the run in state VERIFY with the effective decision
-- in its report. That decision is PASS exactly when PASS was reported, the named coding run and
-- verifier run differ, and the ledger supports a PASS of this run and the report's task; where it is
-- not the reported decision, it is FAIL.
pub verify_run_honoured :
    (run_id : String) (report : VerifierReport) (ledger : EvidenceLedger) (repo : Repository)
    (r : RunRecord)
    → get run_id repo ≡ some r
    → (reply : VerifyReply) × (v : RunRecord) × ((verify_run run_id report ledger repo).0
        ≡ Reply.ok reply)
      × (get r.run_id (verify_run run_id report ledger repo).1 ≡ some v)
      × IsVerified report ledger r v reply
unfolding verify_run verified decision_of
verify_run_honoured run_id report ledger repo r e =
    rw (e, verify_run)
      (
        _,
        verified r report (
            effective_decision report.decision (certify report ledger)
              (evidence_gate ledger r.run_id report.task_id [])),
        refl,
        get-save (verified r report _) repo r.run_id ∙ ground (arith, eq_iff r.run_id r.run_id),
        record {
          moved = refl;
          kept = refl;
          stands = refl;
          honoured = effective_iff report ledger r.run_id;
          lowered = lowered_lem report.decision _ _;
        },
      )

-- A registered run gets its pull request through exactly when its verifier report is a PASS, its
-- manifest asks for no automatic merge or deployment, and the request names a pull request or the
-- reason for its absence.
pub create_or_update_pr_iff :
    (run_id pr_url pr_skip_reason : String) (repo : Repository) (r : RunRecord)
    → get run_id repo ≡ some r
    → ((reply : PrReply) × ((create_or_update_pr run_id pr_url pr_skip_reason repo).0
          ≡ Reply.ok reply))
      ↔ ((decision_of r ≡ Decision.pass)
          × (r.manifest.auto_merge ≡ false)
          × (r.manifest.auto_deploy ≡ false)
          × (pr_url ≡ "" → pr_skip_reason ≢ ""))
unfolding create_or_update_pr pull_request_of
create_or_update_pr_iff run_id pr_url pr_skip_reason repo r e =
    let checked = pr_gate-passed_iff (pull_request_of r pr_url pr_skip_reason) in
    rw (e, create_or_update_pr)
      (
        λ (q, h). ground arith,
        λ (d, m, n, w).
            let decided : is_pass (decision_of r) ≡ true = ground arith in
            let admitted = checked.1 (record {
              no_auto_merge = m;
              no_auto_deploy = n;
              no_merge = refl;
              no_deploy = refl;
              protected = refl;
              documented = λ p. w;
            }) in
            rw (decided, admitted) (_, refl),
      )

-- ===== src/Gates/Release/Admits.antt =====
-- What the two release gates admit.
use agent_analysis.Prelude.{true, false, eq_iff, ◌≡◌, ◌≢◌, ◌↔◌, arith, All, iff_trans}
use agent_analysis.Schemas.Constants.{Decision}
use agent_analysis.Schemas.GateResult.{passed, passed-collect}
use agent_analysis.Gates.Release.{
  Certification, certification_checks, no_self_certification_gate, PullRequest, pr_checks, pr_gate,
}

-- Creation and certification are independent.
pub record IsIndependent (c : Certification) : Type 0 where
  pub runs : c.coding_agent_run_id ≢ "" → c.coding_agent_run_id ≢ c.verifier_run_id
  pub agents : c.coding_agent_id ≢ "" → c.coding_agent_id ≢ c.verifier_id
  pub no_narrative : c.agent_summary_used_as_evidence ≡ false
  pub done_verified : c.executor_marked_done ≡ true → c.verifier_decision ≡ Decision.pass

certification_iff :
    (c : Certification) → All (λ t. t.0 ≡ false) (certification_checks c) ↔ IsIndependent c
unfolding certification_checks
certification_iff c =
    let coding = eq_iff c.coding_agent_run_id "" in
    let verifying = eq_iff c.verifier_run_id "" in
    let same = eq_iff c.coding_agent_run_id c.verifier_run_id in
    let agent = eq_iff c.coding_agent_id "" in
    let verifier = eq_iff c.verifier_id "" in
    let one = eq_iff c.coding_agent_id c.verifier_id in (λ h. ground arith, λ h. ground arith)

-- The no-self-certification gate passes exactly when named runs and named agents differ, no agent
-- summary is evidence, and nothing is marked done without the verifier's PASS.
pub no_self_certification_gate-passed_iff :
    (c : Certification) → (passed (no_self_certification_gate c) ≡ true) ↔ IsIndependent c
unfolding no_self_certification_gate
no_self_certification_gate-passed_iff c = iff_trans (passed-collect _ _) (certification_iff c)

-- The pull request stays gated.
pub record StaysGated (p : PullRequest) : Type 0 where
  pub no_auto_merge : p.auto_merge ≡ false
  pub no_auto_deploy : p.auto_deploy ≡ false
  pub no_merge : p.merge_occurred ≡ false
  pub no_deploy : p.deploy_occurred ≡ false
  pub protected : p.pushed_to_protected_branch ≡ false
  pub documented : p.verifier_decision ≡ Decision.pass → p.pr_url ≡ "" → p.pr_skip_reason ≢ ""

pr_iff : (p : PullRequest) → All (λ t. t.0 ≡ false) (pr_checks p) ↔ StaysGated p
unfolding pr_checks
pr_iff p =
    let url = eq_iff p.pr_url "" in
    let skip = eq_iff p.pr_skip_reason "" in (λ h. ground arith, λ h. ground arith)

-- The PR gate passes exactly when nothing merged, deployed or bypassed a protected branch, and a
-- PASS comes with a pull request or with the documented reason for its absence.
pub pr_gate-passed_iff : (p : PullRequest) → (passed (pr_gate p) ≡ true) ↔ StaysGated p
unfolding pr_gate
pr_gate-passed_iff p = iff_trans (passed-collect _ _) (pr_iff p)

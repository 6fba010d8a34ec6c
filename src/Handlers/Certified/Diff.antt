-- ===== src/Handlers/Certified/Diff.antt =====
-- What a PASS of the documentation verifier and of the security verifier stands on.
use agent_analysis.Prelude.{
  String, Bool, true, false, not, ◌≡◌, ◌≢◌, ◌↔◌, refl, sym, ap, subst, iff_trans, [], ◌∷◌, some,
  All, Memᴰ,
}
use agent_analysis.Platform.{Platform}
use agent_analysis.Schemas.GateResult.{passed}
use agent_analysis.Schemas.Chain.{ChainRequest, HandlerStatus, HandlerResult}
use agent_analysis.Chains.Context.{ChainContext}
use agent_analysis.Gates.Release.{no_self_certification_gate}
use agent_analysis.Gates.Release.Admits.{no_self_certification_gate-passed_iff}
use agent_analysis.Gates.Evidence.{evidence_gate}
use agent_analysis.Gates.Evidence.Supports.{Supports, evidence_gate-passed_iff}
use agent_analysis.Gates.Scope.{scope_gate}
use agent_analysis.Gates.Scope.Admits.{IsApproved, scope_gate-passed_iff}
use agent_analysis.Handlers.Verification.{or_default, certification, scope_of}
use agent_analysis.Handlers.Documentation.{
  diff_gates, verify_diff, verify_documentation, verify_security,
}
use agent_analysis.Handlers.Certified.{
  of-IsReasoned, from_gates-pass_iff, not-false, report_verdict-status,
}

module _ (os : Platform) where
  -- The verifier run, by default named `run`, is not the coding run that the context names, the ledger
  -- supports a PASS with a diff, and the changed files are approved.
  pub record IsVerifiedDiff (run : String) (request : ChainRequest) (c : ChainContext)
      : Type 0 where
    pub independent :
        c.coding_agent_run_id ≢ "" → c.coding_agent_run_id ≢ or_default c.verifier_run_id run
    pub supported : Supports c.evidence.ledger c.request.run_id c.request.task_id ("DIFF" ∷ [])
    pub in_scope :
        (path : String) → Memᴰ path c.changed_files → IsApproved os.fnmatch (scope_of request) path

  diff_gates_iff :
      (run : String) (summary_used : Bool) (request : ChainRequest) (c : ChainContext)
      → All
          (λ g. passed g ≡ true)
          (diff_gates os summary_used request
            (record c { verifier_run_id = or_default c.verifier_run_id run }))
        ↔ ((summary_used ≡ false) × IsVerifiedDiff run request c)
  unfolding diff_gates certification
  diff_gates_iff run summary_used request c =
      let d = record c { verifier_run_id = or_default c.verifier_run_id run } in
      let certified = no_self_certification_gate-passed_iff (certification d summary_used) in
      let supported =
        evidence_gate-passed_iff c.evidence.ledger c.request.run_id c.request.task_id
          ("DIFF" ∷ []) in
      let scoped = scope_gate-passed_iff os.fnmatch c.changed_files (scope_of request) in
      (
        λ (a, (s, (p, u))). (
          (certified.0 a).no_narrative,
          record {
            independent = (certified.0 a).runs;
            supported = supported.0 s;
            in_scope = scoped.0 p;
          },
        ),
        λ (n, v). (
          certified.1 (record {
            runs = v.independent;
            agents = λ h. absurd (h refl);
            no_narrative = n;
            done_verified = λ h. cc;
          }),
          (supported.1 v.supported, (scoped.1 v.in_scope, tt)),
        ),
      )

  verify_diff-pass_iff :
      (name run : String) (summary_used : Bool) (request : ChainRequest) (c : ChainContext)
      {result : HandlerResult} {c' : ChainContext}
      → verify_diff os name summary_used request
          (record c { verifier_run_id = or_default c.verifier_run_id run })
        ≡ some (result, c')
      → (result.status ≡ HandlerStatus.pass)
        ↔ ((summary_used ≡ false) × IsVerifiedDiff run request c)
  unfolding verify_diff diff_gates no_self_certification_gate evidence_gate scope_gate
  verify_diff-pass_iff name run summary_used request c e =
      let d = record c { verifier_run_id = or_default c.verifier_run_id run } in
      let gates = diff_gates os summary_used request d in
      let made = report_verdict-status os name gates _ d e in
      iff_trans
        (subst (λ r. (r.status ≡ HandlerStatus.pass) ↔ All (λ g. passed g ≡ true) gates) (sym made)
          (from_gates-pass_iff _ gates
            (of-IsReasoned _ _, (of-IsReasoned _ _, (of-IsReasoned _ _, tt)))))
        (diff_gates_iff run summary_used request c)

  -- The documentation verifier passes exactly when the agent's summary is quarantined, the verifier run
  -- is not the named coding run, the ledger supports a PASS with a diff, and every changed file is in
  -- scope.
  pub verify_documentation-pass_iff :
      (request : ChainRequest) (c : ChainContext) {result : HandlerResult} {c' : ChainContext}
      → verify_documentation os request c ≡ some (result, c')
      → (result.status ≡ HandlerStatus.pass)
        ↔ ((c.agent_summary_quarantined ≡ true) × IsVerifiedDiff "doc-verifier" request c)
  unfolding verify_documentation
  verify_documentation-pass_iff request c e =
      iff_trans
        (verify_diff-pass_iff "DocumentationVerifierHandler" "doc-verifier"
          (not c.agent_summary_quarantined) request c e)
        (λ p. (not-false p.0, p.1), λ p. (ap not p.0, p.1))

  -- The security verifier passes exactly when the verifier run is not the named coding run, the ledger
  -- supports a PASS with a diff, and every changed file is in scope; no quarantine is asked for.
  pub verify_security-pass_iff :
      (request : ChainRequest) (c : ChainContext) {result : HandlerResult} {c' : ChainContext}
      → verify_security os request c ≡ some (result, c')
      → (result.status ≡ HandlerStatus.pass) ↔ IsVerifiedDiff "security-verifier" request c
  unfolding verify_security
  verify_security-pass_iff request c e =
      iff_trans
        (verify_diff-pass_iff "SecurityVerifierHandler" "security-verifier" false request c e)
        (λ p. p.1, λ v. (refl, v))

-- ===== src/Handlers/Certified.antt =====
-- What a verifier's PASS stands on.
pub mod Diff
use agent_analysis.Prelude.{
  String, Bool, true, false, not, ◌≡◌, ◌≢◌, refl, sym, ap, subst, ◌↔◌, iff_trans, List, [], ◌∷◌,
  some, if◌then◌else◌, All, Memᴰ, append-eq-nil, arith, Option-cases, inl, inr, some_injective,
  is_nil_iff, ◌+◌,
}
use agent_analysis.Platform.{Platform}
use agent_analysis.Schemas.Constants.{RunType}
use agent_analysis.Schemas.GateResult.{GateResult, of, passed, passed-of}
use agent_analysis.Schemas.Json.{flag}
use agent_analysis.Schemas.Chain.{ChainRequest, HandlerStatus, HandlerResult}
use agent_analysis.Chains.Context.{ChainContext, record_artifact}
use agent_analysis.Gates.Release.{no_self_certification_gate}
use agent_analysis.Gates.Release.Admits.{no_self_certification_gate-passed_iff}
use agent_analysis.Gates.Evidence.{evidence_gate}
use agent_analysis.Gates.Evidence.Supports.{Supports, evidence_gate-passed_iff}
use agent_analysis.Gates.Tests.{TestOutcome, test_gate}
use agent_analysis.Gates.Tests.Admits.{IsSettled, test_gate-passed_iff}
use agent_analysis.Gates.Strategic.{strategic_programming_gate}
use agent_analysis.Gates.Strategic.Admits.{IsContained, strategic_programming_gate-passed_iff}
use agent_analysis.Gates.Scope.Admits.{IsApproved, scope_gate-passed_iff}
use agent_analysis.Gates.Scope.{scope_gate}
use agent_analysis.Handlers.Base.{Identity, from_gates, failing_reasons, ok_result, fail_result}
use agent_analysis.Handlers.Verification.{
  or_default, certification, analysis_gates, impl_gates, report_request, required_types,
  strategic_of, scope_of, report_verdict, verify_analysis, verify_implementation, verifier_of,
}

-- A result of `GateResult.of`: no reasons, no failure.
abbrev pub IsReasoned : GateResult → Type 0
IsReasoned g = g.reasons ≡ [] → passed g ≡ true

pub of-IsReasoned : (name : String) (reasons : List String) → IsReasoned (of name reasons)
unfolding of passed
of-IsReasoned name reasons e = (passed-of name reasons).1 e

failing_reasons_iff :
    (gates : List GateResult)
    → All IsReasoned gates
    → (failing_reasons gates ≡ []) ↔ All (λ g. passed g ≡ true) gates
unfolding failing_reasons
failing_reasons_iff [] h = (λ e. tt, λ a. refl)
failing_reasons_iff (g ∷ gs) h =
    let rest = failing_reasons_iff gs h.1 in
    let parts = append-eq-nil (if passed g then [] else g.reasons) (failing_reasons gs) in
    (
      λ e. (ground (arith, h.0, (parts.0 e).0), rest.0 (parts.0 e).1),
      λ a. parts.1 (ground (arith, a.0), rest.1 a.1),
    )

-- A handler that reports its gates passes exactly when all of them do.
pub from_gates-pass_iff :
    (self : Identity) (gates : List GateResult)
    → All IsReasoned gates
    → ((from_gates self gates false).status ≡ HandlerStatus.pass) ↔ All (λ g. passed g ≡ true) gates
unfolding from_gates ok_result fail_result
from_gates-pass_iff self gates h =
    let nothing = is_nil_iff (failing_reasons gates) in
    iff_trans (λ e. nothing.0 (ground arith), λ e. ground (arith, nothing.1 e))
      (failing_reasons_iff gates h)

pub not-false : {b : Bool} → not b ≡ false → b ≡ true
not-false {b = true} e = refl
not-false {b = false} e = cc

not-true : {b : Bool} → not b ≡ true → b ≡ false
not-true {b = false} e = refl
not-true {b = true} e = cc

module _ (os : Platform) where
  pub report_verdict-status :
      (name : String) (gates : List GateResult) (report : String) (c : ChainContext)
      {result : HandlerResult} {c' : ChainContext}
      → report_verdict os name gates report c ≡ some (result, c')
      → result ≡ from_gates (verifier_of name) gates false
  unfolding report_verdict
  report_verdict-status name gates report c {result} e =
      elim (Option-cases (
        record_artifact os
          (report_request name (from_gates (verifier_of name) gates false).status report)
          (record c { clock = c.clock + 1 }))) [
            | inl f ↦ cc (rw (f, report_verdict) at e)
            | inr ((a, d), f) ↦ sym (ap (λ p. p.0) (some_injective (rw (f, report_verdict) at e)))
          ]

  -- What the analysis verifier passes.
  pub record IsVerifiedAnalysis (c : ChainContext) : Type 0 where
    pub independent :
        c.coding_agent_run_id ≢ ""
        → c.coding_agent_run_id ≢ or_default c.verifier_run_id "analysis-verifier"
    pub supported :
        Supports c.evidence.ledger c.request.run_id c.request.task_id ("ANALYSIS_REPORT" ∷ [])

  -- What the implementation verifier passes; the tests are left out only when the request says so.
  pub record IsVerifiedChange (request : ChainRequest) (c : ChainContext) : Type 0 where
    pub independent :
        c.coding_agent_run_id ≢ ""
        → c.coding_agent_run_id ≢ or_default c.verifier_run_id "impl-verifier"
    pub quarantined : c.agent_summary_quarantined ≡ true
    pub tested :
        (flag "tests_not_applicable" request.metadata ≡ false
          → (o : TestOutcome) × Memᴰ o c.test_outcomes × (o.ran ≡ true))
        × ((o : TestOutcome) → Memᴰ o c.test_outcomes → IsSettled o)
    pub supported :
        Supports c.evidence.ledger c.request.run_id c.request.task_id
          (required_types (not (flag "tests_not_applicable" request.metadata)))
    pub contained : IsContained (strategic_of c)
    pub in_scope :
        (path : String) → Memᴰ path c.changed_files → IsApproved os.fnmatch (scope_of request) path

  -- The analysis verifier passes exactly when the verifier run is not the named coding run and the
  -- ledger supports a PASS with an analysis report.
  pub verify_analysis-pass_iff :
      (request : ChainRequest) (c : ChainContext) {result : HandlerResult} {c' : ChainContext}
      → verify_analysis os request c ≡ some (result, c')
      → (result.status ≡ HandlerStatus.pass) ↔ IsVerifiedAnalysis c
  unfolding verify_analysis analysis_gates certification no_self_certification_gate evidence_gate
  verify_analysis-pass_iff request c e =
      let d = record c { verifier_run_id = or_default c.verifier_run_id "analysis-verifier" } in
      let made = report_verdict-status "AnalysisVerifierHandler" (analysis_gates d) _ d e in
      let certified = no_self_certification_gate-passed_iff (certification d false) in
      let supported =
        evidence_gate-passed_iff c.evidence.ledger c.request.run_id c.request.task_id
          ("ANALYSIS_REPORT" ∷ []) in
      iff_trans
        (subst
          (λ r. (r.status ≡ HandlerStatus.pass) ↔ All (λ g. passed g ≡ true) (analysis_gates d))
          (sym made)
          (from_gates-pass_iff _ (analysis_gates d) (of-IsReasoned _ _, (of-IsReasoned _ _, tt))))
        (
          λ a. record { independent = (certified.0 a.0).runs; supported = supported.0 a.1.0 },
          λ v. (
            certified.1 (record {
              runs = v.independent;
              agents = λ h. absurd (h refl);
              no_narrative = refl;
              done_verified = λ h. cc;
            }),
            (supported.1 v.supported, tt),
          ),
        )

  -- The implementation verifier passes exactly when the verifier run is not the named coding run, the
  -- agent's summary is quarantined, every command outcome is settled and, unless the request says
  -- that tests do not apply, one was run, the ledger supports a PASS with a diff and with tests where
  -- they apply, the design contains its complexity, and every changed file is in scope.
  pub verify_implementation-pass_iff :
      (request : ChainRequest) (c : ChainContext) {result : HandlerResult} {c' : ChainContext}
      → verify_implementation os request c ≡ some (result, c')
      → (result.status ≡ HandlerStatus.pass) ↔ IsVerifiedChange request c
  unfolding verify_implementation impl_gates certification no_self_certification_gate evidence_gate
      test_gate strategic_programming_gate scope_gate
  verify_implementation-pass_iff request c e =
      let d = record c { verifier_run_id = or_default c.verifier_run_id "impl-verifier" } in
      let apply = not (flag "tests_not_applicable" request.metadata) in
      let made =
        report_verdict-status "ImplementationVerifierHandler" (impl_gates os request d) _ d e in
      let certified =
        no_self_certification_gate-passed_iff (certification d (not c.agent_summary_quarantined)) in
      let tested = test_gate-passed_iff c.test_outcomes RunType.implementation apply in
      let supported =
        evidence_gate-passed_iff c.evidence.ledger c.request.run_id c.request.task_id
          (required_types apply) in
      let contained = strategic_programming_gate-passed_iff (strategic_of c) in
      let scoped = scope_gate-passed_iff os.fnmatch c.changed_files (scope_of request) in
      iff_trans
        (subst
          (λ r.
            (r.status ≡ HandlerStatus.pass) ↔ All (λ g. passed g ≡ true) (impl_gates os request d))
          (sym made)
          (from_gates-pass_iff _ (impl_gates os request d) (
            of-IsReasoned _ _,
            (of-IsReasoned _ _, (of-IsReasoned _ _, (of-IsReasoned _ _, (of-IsReasoned _ _, tt)))),
          )))
        (
          λ (a, (b, (s, (t, (p, u))))). record {
            independent = (certified.0 a).runs;
            quarantined = not-false ((certified.0 a).no_narrative);
            tested = (λ h. (tested.0 b).0 (ap not h) refl, (tested.0 b).1);
            supported = supported.0 s;
            contained = contained.0 t;
            in_scope = scoped.0 p;
          },
          λ v. (
            certified.1 (record {
              runs = v.independent;
              agents = λ h. absurd (h refl);
              no_narrative = ap not v.quarantined;
              done_verified = λ h. cc;
            }),
            (
              tested.1 (λ h q. v.tested.0 (not-true h), v.tested.1),
              (supported.1 v.supported, (contained.1 v.contained, (scoped.1 v.in_scope, tt))),
            ),
          ),
        )

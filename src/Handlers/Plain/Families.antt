-- ===== src/Handlers/Plain/Families.antt =====
-- The dependency, CI failure, documentation and security handlers leave the verdict and the pull
-- request to others.
use agent_analysis.Prelude.{
  String, List, some, arith, Option-cases, inl, inr, sorted_set, select, if◌then◌else◌, strip,
}
use agent_analysis.Platform.{Platform}
use agent_analysis.Schemas.Json.{Value, Fields, null, text, end, get_field, get_or, truthy, flag}
use agent_analysis.Schemas.Reading.{as_object, as_text}
use agent_analysis.Schemas.GateResult.{GateResult}
use agent_analysis.Schemas.Chain.{ChainRequest}
use agent_analysis.Chains.Context.{ChainContext, record_artifact}
use agent_analysis.Handlers.Base.{Identity, ok_result, fail_result, skip_result, from_gates}
use agent_analysis.Handlers.Control.{check_of}
use agent_analysis.Handlers.Verification.{verifier_of, report_verdict}
use agent_analysis.Handlers.Host.{Host}
use agent_analysis.Handlers.Commands.{Evidence, command_of, recorded, gather_evidence}
use agent_analysis.Handlers.Advisories.{Review, review_advisories}
use agent_analysis.Handlers.Dependency.{
  validate_lockfiles, assess_risk, check_licenses, run_build, settle_build, report_build,
  risk_review,
}
use agent_analysis.Handlers.CiFailure.{
  parse_log, parse_ci_failure, classify_failure, shared_files, is_workflow, report_workflows,
  validate_ci_config,
}
use agent_analysis.Handlers.Documentation.{
  inventory_docs, check_doc_links, verify_documentation, verify_security,
}
use agent_analysis.Handlers.Security.{
  waive_tests, report_scan, scan_secrets, assess_vulnerabilities, check_auth_changes, scan_sinks,
  vulnerability_review,
}
use agent_analysis.Handlers.Plain.{Settles, IsPlain}

module _ (os : Platform) where
  pub validate_lockfiles-IsPlain :
      IsPlain (check_of "LockfileValidationHandler") (validate_lockfiles os)
  unfolding validate_lockfiles recorded record_artifact ok_result fail_result get_field
  validate_lockfiles-IsPlain request c result c' e = ground arith

  parse_log-Settles :
      (ci : Fields) (log : String) (c : ChainContext)
      → Settles (command_of "CIFailureLogParserHandler") c (parse_log os ci log c)
  unfolding parse_log recorded record_artifact ok_result get_field
  parse_log-Settles ci log c result c' e = ground arith

  pub parse_ci_failure-IsPlain :
      IsPlain (command_of "CIFailureLogParserHandler") (parse_ci_failure os)
  unfolding parse_ci_failure fail_result get_field
  parse_ci_failure-IsPlain request c result c' e =
      let given = get_or "ci_failure" null request.metadata in
      elim (Option-cases (if truthy given then as_object given else some end)) [
        | inl f ↦ ground arith
        | inr (ci, f) ↦
            elim (Option-cases
              (if flag "log" ci then as_text (get_or "log" null ci) else some "")) [
                | inl g ↦ ground arith
                | inr (log, g) ↦ ground (arith, parse_log-Settles ci (strip log) c result c')
              ]
      ]

  pub classify_failure-IsPlain :
      IsPlain (check_of "FailureClassificationHandler") (classify_failure os)
  unfolding classify_failure record_artifact ok_result fail_result get_field
  classify_failure-IsPlain request c result c' e = ground arith

  pub waive_tests-IsPlain :
      IsPlain (check_of "SecurityReviewTestsNotApplicableHandler") (waive_tests os)
  unfolding waive_tests recorded record_artifact ok_result skip_result get_field
  waive_tests-IsPlain request c result c' e = ground arith

  pub inventory_docs-IsPlain : IsPlain (command_of "DocumentationGapHandler") (inventory_docs os)
  unfolding inventory_docs shared_files recorded record_artifact ok_result get_field
  inventory_docs-IsPlain request c result c' e = ground arith

  report_scan-Settles :
      (self : Identity) (name command label : String) (findings : List String) (c : ChainContext)
      → Settles self c (report_scan os self name command label findings c)
  unfolding report_scan recorded record_artifact ok_result fail_result get_field
  report_scan-Settles self name command label findings c result c' e = ground arith

  pub report_verdict-Settles :
      (name : String) (gates : List GateResult) (report : String) (c : ChainContext)
      → Settles (verifier_of name) c (report_verdict os name gates report c)
  unfolding report_verdict from_gates record_artifact ok_result fail_result get_field
  report_verdict-Settles name gates report c result c' e = ground arith

  pub verify_documentation-IsPlain :
      IsPlain (verifier_of "DocumentationVerifierHandler") (verify_documentation os)
  unfolding verify_documentation
  verify_documentation-IsPlain request c =
      report_verdict-Settles "DocumentationVerifierHandler" _ _ _

  pub verify_security-IsPlain : IsPlain (verifier_of "SecurityVerifierHandler") (verify_security os)
  unfolding verify_security
  verify_security-IsPlain request c = report_verdict-Settles "SecurityVerifierHandler" _ _ _

module _ (os : Platform) (host : Host) where
  pub check_licenses-IsPlain : IsPlain (check_of "LicenseCheckHandler") (check_licenses os host)
  unfolding check_licenses record_artifact ok_result fail_result skip_result get_field
  check_licenses-IsPlain request c result c' e = ground arith

  review_advisories-Settles :
      (r : Review) (request : ChainRequest) (c : ChainContext)
      → Settles r.self c (review_advisories os host r request c)
  unfolding review_advisories record_artifact ok_result fail_result skip_result get_field
  review_advisories-Settles r request c result c' e = ground arith

  pub assess_risk-IsPlain : IsPlain (check_of "DependencyRiskHandler") (assess_risk os host)
  unfolding assess_risk
  assess_risk-IsPlain request c = review_advisories-Settles risk_review request c

  pub assess_vulnerabilities-IsPlain :
      IsPlain (check_of "DependencyVulnerabilityHandler") (assess_vulnerabilities os host)
  unfolding assess_vulnerabilities
  assess_vulnerabilities-IsPlain request c =
      review_advisories-Settles vulnerability_review request c

  report_build-Settles :
      (logs command : Value) (c : ChainContext)
      → Settles (command_of "BuildHandler") c (report_build os host logs command c)
  unfolding report_build record_artifact ok_result fail_result get_field
  report_build-Settles logs command c result c' e = ground arith

  settle_build-Settles :
      (evidence : Evidence) (c : ChainContext)
      → Settles (command_of "BuildHandler") c (settle_build os host evidence c)
  unfolding settle_build fail_result skip_result get_field
  settle_build-Settles Evidence.missing c result c' e = ground arith
  settle_build-Settles (Evidence.refused rejected tree) c result c' e = ground arith
  settle_build-Settles (Evidence.gathered logs command tree) c result c' e =
      report_build-Settles logs command (record c { repo = tree }) result c' e

  pub run_build-IsPlain : IsPlain (command_of "BuildHandler") (run_build os host)
  unfolding run_build skip_result get_field
  run_build-IsPlain request c result c' e =
      elim (Option-cases (
        gather_evidence os host request request.metadata
          (get_or "build_outcomes" null request.metadata)
          (get_or "build_command" (text "build") request.metadata)
          (get_or "build_commands" null request.metadata) c.repo)) [
            | inl f ↦ ground arith
            | inr (evidence, f) ↦ ground (arith, settle_build-Settles evidence c result c')
          ]

  report_workflows-Settles :
      (workflows : List String) (c : ChainContext)
      → Settles (check_of "CIConfigValidationHandler") c (report_workflows os host workflows c)
  unfolding report_workflows record_artifact ok_result fail_result get_field
  report_workflows-Settles workflows c result c' e = ground arith

  pub validate_ci_config-IsPlain :
      IsPlain (check_of "CIConfigValidationHandler") (validate_ci_config os host)
  unfolding validate_ci_config recorded record_artifact ok_result get_field shared_files
  validate_ci_config-IsPlain request c result c' e = elim (Option-cases (shared_files c)) [
    | inl f ↦ ground arith
    | inr ((files, d), f) ↦ ground (
      arith,
      report_workflows-Settles (sorted_set (select (λ f. f) is_workflow files)) d result c',
    )
  ]

  pub check_doc_links-IsPlain : IsPlain (check_of "LinkCheckHandler") (check_doc_links os host)
  unfolding check_doc_links recorded record_artifact ok_result fail_result get_field
  check_doc_links-IsPlain request c result c' e = ground arith

  pub scan_secrets-IsPlain : IsPlain (command_of "SecretScanHandler") (scan_secrets os host)
  unfolding scan_secrets
  scan_secrets-IsPlain request c = report_scan-Settles os _ _ _ _ _ c

  pub scan_sinks-IsPlain : IsPlain (check_of "InputValidationRiskHandler") (scan_sinks os host)
  unfolding scan_sinks
  scan_sinks-IsPlain request c = report_scan-Settles os _ _ _ _ _ c

  pub check_auth_changes-IsPlain :
      IsPlain (check_of "AuthChangeRiskHandler") (check_auth_changes os host)
  unfolding check_auth_changes recorded record_artifact ok_result fail_result get_field
  check_auth_changes-IsPlain request c result c' e = ground arith

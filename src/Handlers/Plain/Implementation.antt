-- ===== src/Handlers/Plain/Implementation.antt =====
-- The implementation handlers leave the verdict and the pull request to others.
use agent_analysis.Prelude.{String, some, arith, Option-cases, inl, inr, if◌then◌else◌}
use agent_analysis.Platform.{Platform}
use agent_analysis.Schemas.Json.{Value, get_field, get_or, truthy, null, text, end}
use agent_analysis.Schemas.Reading.{as_object}
use agent_analysis.Schemas.Chain.{ChainRequest}
use agent_analysis.Chains.Context.{ChainContext, record_artifact, write_quarantined}
use agent_analysis.Handlers.Base.{Identity, ok_result, fail_result, skip_result, from_gates}
use agent_analysis.Handlers.Control.{check_of}
use agent_analysis.Handlers.Host.{Host}
use agent_analysis.Handlers.Commands.{Evidence, command_of, recorded, gather_evidence}
use agent_analysis.Handlers.Implementation.{
  agent_invocation, check_quarantine, skip_static_checks, check_design, await_agent, invoke_agent,
  keep_output, check_scope,
}
use agent_analysis.Handlers.Implementation.Diff.{
  record_capture, report_capture, capture_diff, capture, capture_tree, supplied_diff, GitCapture,
}
use agent_analysis.Handlers.Reproduction.{
  report_tests, settle_tests, settle_reproduction, run_tests, report_reproduction, run_reproduction,
  reproduce_failure, reproduce_ci_failure,
}
use agent_analysis.Handlers.Plain.{Settles, IsPlain}

pub check_quarantine-IsPlain : IsPlain (check_of "AgentOutputQuarantineHandler") check_quarantine
unfolding check_quarantine ok_result fail_result get_field
check_quarantine-IsPlain request c result c' e = ground arith

pub skip_static_checks-IsPlain : IsPlain (command_of "StaticCheckHandler") skip_static_checks
unfolding skip_static_checks skip_result get_field
skip_static_checks-IsPlain request c result c' e = ground arith

module _ (os : Platform) (host : Host) where
  pub check_design-IsPlain : IsPlain (check_of "StrategicDesignGateHandler") (check_design os host)
  unfolding check_design from_gates fail_result ok_result get_field
  check_design-IsPlain request c result c' e = ground arith

  pub invoke_agent-IsPlain : IsPlain agent_invocation (invoke_agent os host)
  unfolding invoke_agent await_agent skip_result keep_output write_quarantined fail_result ok_result
      get_field
  invoke_agent-IsPlain request c result c' e = ground arith

  pub check_scope-IsPlain : IsPlain (check_of "ScopeDiffHandler") (check_scope os host)
  unfolding check_scope from_gates fail_result ok_result get_field
  check_scope-IsPlain request c result c' e = ground arith

  report_capture-Settles :
      (taken : GitCapture) (c : ChainContext)
      → Settles (command_of "DiffCaptureHandler") c (report_capture os host taken c)
  unfolding report_capture record_capture record_artifact recorded fail_result ok_result get_field
  report_capture-Settles taken c result c' e = ground arith

  capture_tree-Settles :
      (c : ChainContext) → Settles (command_of "DiffCaptureHandler") c (capture_tree os host c)
  unfolding capture_tree fail_result get_field
  capture_tree-Settles c result c' e = elim (Option-cases (capture os host c.repo)) [
    | inl f ↦ ground arith
    | inr (taken, f) ↦ ground (arith, report_capture-Settles taken c result c')
  ]

  pub capture_diff-IsPlain : IsPlain (command_of "DiffCaptureHandler") (capture_diff os host)
  unfolding capture_diff
  capture_diff-IsPlain request c result c' e =
      elim (Option-cases (
        if truthy (get_or "candidate" null c.shared)
        then as_object (get_or "candidate" null c.shared)
        else some end)) [
          | inl f ↦ ground arith
          | inr (candidate, f) ↦ elim (Option-cases (supplied_diff os host candidate)) [
            | inl g ↦ ground (arith, capture_tree-Settles c result c')
            | inr (taken, g) ↦
                ground (
                  arith,
                  capture_tree-Settles c result c',
                  report_capture-Settles taken c result c',
                )
          ]
        ]

  report_tests-Settles :
      (logs command : Value) (c : ChainContext)
      → Settles (command_of "TestRunnerHandler") c (report_tests os host logs command c)
  unfolding report_tests record_artifact ok_result get_field
  report_tests-Settles logs command c result c' e = ground arith

  settle_tests-Settles :
      (evidence : Evidence) (c : ChainContext)
      → Settles (command_of "TestRunnerHandler") c (settle_tests os host evidence c)
  unfolding settle_tests fail_result get_field
  settle_tests-Settles Evidence.missing c result c' e = ground arith
  settle_tests-Settles (Evidence.refused rejected tree) c result c' e = ground arith
  settle_tests-Settles (Evidence.gathered logs command tree) c result c' e =
      report_tests-Settles logs command (record c { repo = tree }) result c' e

  pub run_tests-IsPlain : IsPlain (command_of "TestRunnerHandler") (run_tests os host)
  unfolding run_tests skip_result get_field
  run_tests-IsPlain request c result c' e =
      elim (Option-cases (
        gather_evidence os host request request.metadata
          (get_or "test_outcomes" null request.metadata) (text "python -m pytest")
          (get_or "test_commands" null request.metadata) c.repo)) [
            | inl f ↦ ground arith
            | inr (evidence, f) ↦ ground (arith, settle_tests-Settles evidence c result c')
          ]

  report_reproduction-Settles :
      (self : Identity) (name : String) (logs command : Value) (c : ChainContext)
      → Settles self c (report_reproduction os host self name logs command c)
  unfolding report_reproduction record_artifact fail_result ok_result get_field
  report_reproduction-Settles self name logs command c result c' e = ground arith

  settle_reproduction-Settles :
      (self : Identity) (name : String) (evidence : Evidence) (c : ChainContext)
      → Settles self c (settle_reproduction os host self name evidence c)
  unfolding settle_reproduction fail_result get_field
  settle_reproduction-Settles self name Evidence.missing c result c' e = ground arith
  settle_reproduction-Settles self name (Evidence.refused rejected tree) c result c' e =
      ground arith
  settle_reproduction-Settles self name (Evidence.gathered logs command tree) c result c' e =
      report_reproduction-Settles self name logs command (record c { repo = tree }) result c' e

  run_reproduction-Settles :
      (self : Identity) (request : ChainRequest) (c : ChainContext) (repro : Value)
      (artifact_name reason : String)
      → Settles self c (run_reproduction os host self request c repro artifact_name reason)
  unfolding run_reproduction fail_result get_field
  run_reproduction-Settles self request c repro artifact_name reason result c' e =
      elim (Option-cases (as_object repro)) [
        | inl f ↦ ground arith
        | inr (fields, f) ↦
            elim (Option-cases (
              gather_evidence os host request fields (get_or "test_outcomes" null fields)
                (get_or "command" (text "python -m pytest") fields)
                (get_or "test_commands" null fields) c.repo)) [
                  | inl g ↦ ground arith
                  | inr (evidence, g) ↦
                      ground
                        (arith, settle_reproduction-Settles self artifact_name evidence c result c')
                ]
      ]

  pub reproduce_failure-IsPlain :
      IsPlain (command_of "FailureReproductionHandler") (reproduce_failure os host)
  unfolding reproduce_failure
  reproduce_failure-IsPlain request c = run_reproduction-Settles _ request c _ _ _

  pub reproduce_ci_failure-IsPlain :
      IsPlain (command_of "ReproductionHandler") (reproduce_ci_failure os host)
  unfolding reproduce_ci_failure
  reproduce_ci_failure-IsPlain request c = run_reproduction-Settles _ request c _ _ _

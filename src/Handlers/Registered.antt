-- ===== src/Handlers/Registered.antt =====
-- The registry that `build_default_registry` makes (backend/app/handlers/base.py), from the `HANDLERS`
-- of the handler modules.
pub mod Limited
pub mod Judged
pub mod Complete
use agent_analysis.Prelude.{List, [], ◌∷◌, ◌++◌}
use agent_analysis.Platform.{Platform}
use agent_analysis.Handlers.Base.{Handler, HandlerRegistry, register}
use agent_analysis.Handlers.Control.{handler_of, check_of, control_handlers}
use agent_analysis.Handlers.Verification.{verifier_of, verification_handlers}
use agent_analysis.Handlers.Release.{release_handlers}
use agent_analysis.Handlers.Host.{Host}
use agent_analysis.Handlers.Commands.{command_of}
use agent_analysis.Handlers.Implementation.{
  agent_invocation, check_design, invoke_agent, check_quarantine, skip_static_checks, check_scope,
}
use agent_analysis.Handlers.Implementation.Diff.{capture_diff}
use agent_analysis.Handlers.Reproduction.{run_tests, reproduce_failure, reproduce_ci_failure}
use agent_analysis.Handlers.Dependency.{validate_lockfiles, assess_risk, check_licenses, run_build}
use agent_analysis.Handlers.CiFailure.{parse_ci_failure, classify_failure, validate_ci_config}
use agent_analysis.Handlers.Documentation.{
  inventory_docs, check_doc_links, verify_documentation, verify_security,
}
use agent_analysis.Handlers.Security.{
  waive_tests, scan_secrets, assess_vulnerabilities, check_auth_changes, scan_sinks,
}
use agent_analysis.Handlers.Analysis.{
  inventory_repo, find_commands, inventory_ci, inventory_dependencies, check_read_only,
  score_readiness, assess_strategy, generate_findings, update_backlog,
}
use agent_analysis.Handlers.Analysis.Analyst.{
  AnalystServices, analyst, invoke_analyst, parse_analyst_output,
}
use agent_analysis.Agents.Parsing.{Parser}

-- What the handlers are given beside the platform.
pub record Services : Type 0 where
  pub host : Host
  pub agents : AnalystServices
  pub parser : Parser

-- The loop of `build_default_registry` over the handlers.
unfoldable pub register_all : List Handler → HandlerRegistry → HandlerRegistry
register_all [] registry = registry
register_all (h ∷ hs) registry = register_all hs (register h registry)

module _ (os : Platform) (s : Services) where
  unfoldable pub analysis_handlers : List Handler
  analysis_handlers =
      handler_of (command_of "RepoInventoryHandler") (inventory_repo os)
      ∷ handler_of (command_of "CommandDiscoveryHandler") (find_commands os)
      ∷ handler_of (command_of "CIInventoryHandler") (inventory_ci os)
      ∷ handler_of (command_of "DependencyInventoryHandler") (inventory_dependencies os)
      ∷ handler_of (check_of "ReadOnlyComplianceHandler") (check_read_only os)
      ∷ handler_of analyst (invoke_analyst os s.agents)
      ∷ handler_of (command_of "StructuredOutputParserHandler")
          (parse_analyst_output os s.agents s.parser)
      ∷ handler_of (command_of "AIReadinessScoringHandler") (score_readiness os)
      ∷ handler_of (check_of "StrategicProgrammingAssessmentHandler") (assess_strategy os)
      ∷ handler_of (command_of "BacklogFindingGeneratorHandler") (generate_findings os)
      ∷ handler_of (command_of "BacklogUpdateHandler") (update_backlog os)
      ∷ []

  unfoldable pub implementation_handlers : List Handler
  implementation_handlers =
      handler_of (check_of "StrategicDesignGateHandler") (check_design os s.host)
      ∷ handler_of agent_invocation (invoke_agent os s.host)
      ∷ handler_of (check_of "AgentOutputQuarantineHandler") check_quarantine
      ∷ handler_of (command_of "DiffCaptureHandler") (capture_diff os s.host)
      ∷ handler_of (command_of "TestRunnerHandler") (run_tests os s.host)
      ∷ handler_of (command_of "StaticCheckHandler") skip_static_checks
      ∷ handler_of (check_of "ScopeDiffHandler") (check_scope os s.host)
      ∷ handler_of (command_of "FailureReproductionHandler") (reproduce_failure os s.host)
      ∷ []

  unfoldable pub documentation_handlers : List Handler
  documentation_handlers =
      handler_of (command_of "DocumentationGapHandler") (inventory_docs os)
      ∷ handler_of (check_of "LinkCheckHandler") (check_doc_links os s.host)
      ∷ handler_of (verifier_of "DocumentationVerifierHandler") (verify_documentation os)
      ∷ []

  unfoldable pub dependency_handlers : List Handler
  dependency_handlers =
      handler_of (check_of "LockfileValidationHandler") (validate_lockfiles os)
      ∷ handler_of (check_of "DependencyRiskHandler") (assess_risk os s.host)
      ∷ handler_of (check_of "LicenseCheckHandler") (check_licenses os s.host)
      ∷ handler_of (command_of "BuildHandler") (run_build os s.host)
      ∷ []

  unfoldable pub ci_failure_handlers : List Handler
  ci_failure_handlers =
      handler_of (command_of "CIFailureLogParserHandler") (parse_ci_failure os)
      ∷ handler_of (check_of "FailureClassificationHandler") (classify_failure os)
      ∷ handler_of (command_of "ReproductionHandler") (reproduce_ci_failure os s.host)
      ∷ handler_of (check_of "CIConfigValidationHandler") (validate_ci_config os s.host)
      ∷ []

  unfoldable pub security_handlers : List Handler
  security_handlers =
      handler_of (check_of "SecurityReviewTestsNotApplicableHandler") (waive_tests os)
      ∷ handler_of (command_of "SecretScanHandler") (scan_secrets os s.host)
      ∷ handler_of (check_of "DependencyVulnerabilityHandler") (assess_vulnerabilities os s.host)
      ∷ handler_of (check_of "AuthChangeRiskHandler") (check_auth_changes os s.host)
      ∷ handler_of (check_of "InputValidationRiskHandler") (scan_sinks os s.host)
      ∷ handler_of (verifier_of "SecurityVerifierHandler") (verify_security os)
      ∷ []

  -- The `HANDLERS` of the ten modules, in order; those of `evaluation` and `pr` are one list.
  abbrev pub all_handlers : List Handler
  all_handlers =
      control_handlers os
      ++ (analysis_handlers
          ++ (implementation_handlers
              ++ (verification_handlers os
                  ++ (release_handlers os
                      ++ (documentation_handlers
                          ++ (ci_failure_handlers
                              ++ (dependency_handlers ++ security_handlers)))))))

  unfoldable pub build_default_registry : HandlerRegistry
  build_default_registry = register_all all_handlers []

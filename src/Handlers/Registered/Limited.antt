-- ===== src/Handlers/Registered/Limited.antt =====
-- Every registered handler leaves the verdict to the executor and the pull request to the PR gate.
use agent_analysis.Prelude.{
  List, [], ◌∷◌, ◌++◌, All, All-append, All-split, All→mem, mem→All, Memᴰ, Bool-cases, inl, inr,
  if◌then◌else◌, ◌==◌,
}
use agent_analysis.Platform.{Platform}
use agent_analysis.Handlers.Base.{Handler, HandlerRegistry, register}
use agent_analysis.Handlers.Control.{control_handlers}
use agent_analysis.Handlers.Verification.{verification_handlers}
use agent_analysis.Handlers.Release.{release_handlers}
use agent_analysis.Handlers.Modest.{modelled_handlers, modelled_handlers-IsModest}
use agent_analysis.Handlers.Careful.{modelled_handlers-IsCareful}
use agent_analysis.Handlers.Plain.{IsLimited, plain-IsLimited}
use agent_analysis.Handlers.Plain.Implementation.{
  check_design-IsPlain, invoke_agent-IsPlain, check_quarantine-IsPlain, capture_diff-IsPlain,
  run_tests-IsPlain, skip_static_checks-IsPlain, check_scope-IsPlain, reproduce_failure-IsPlain,
  reproduce_ci_failure-IsPlain,
}
use agent_analysis.Handlers.Plain.Families.{
  validate_lockfiles-IsPlain, assess_risk-IsPlain, check_licenses-IsPlain, run_build-IsPlain,
  parse_ci_failure-IsPlain, classify_failure-IsPlain, validate_ci_config-IsPlain,
  inventory_docs-IsPlain, check_doc_links-IsPlain, verify_documentation-IsPlain,
  verify_security-IsPlain, waive_tests-IsPlain, scan_secrets-IsPlain,
  assess_vulnerabilities-IsPlain, check_auth_changes-IsPlain, scan_sinks-IsPlain,
}
use agent_analysis.Handlers.Plain.Analysis.{
  inventory_repo-IsPlain, find_commands-IsPlain, inventory_ci-IsPlain,
  inventory_dependencies-IsPlain, check_read_only-IsPlain, invoke_analyst-IsPlain,
  parse_analyst_output-IsPlain, score_readiness-IsPlain, assess_strategy-IsPlain,
  generate_findings-IsPlain, update_backlog-IsPlain,
}
use agent_analysis.Handlers.Registered.{
  Services, analysis_handlers, implementation_handlers, documentation_handlers, dependency_handlers,
  ci_failure_handlers, security_handlers, all_handlers, register_all, build_default_registry,
}

-- A registry of handlers with a property keeps it under the registration of another.
register-All {κ} :
    (P : Handler → Type κ) (h : Handler) (registry : HandlerRegistry)
    → P h
    → All P registry
    → All P (register h registry)
unfolding register
register-All P h [] p all = (p, tt)
register-All P h (g ∷ gs) p all = elim (Bool-cases (g.name == h.name)) [
  | inl e ↦ rw (e, if◌then◌else◌) (p, all.1)
  | inr e ↦ rw (e, if◌then◌else◌) (all.0, register-All P h gs p all.1)
]

register_all-All {κ} :
    (P : Handler → Type κ) (hs : List Handler) (registry : HandlerRegistry)
    → All P hs
    → All P registry
    → All P (register_all hs registry)
unfolding register_all
register_all-All P [] registry ps all = all
register_all-All P (h ∷ hs) registry ps all =
    register_all-All P hs (register h registry) ps.1 (register-All P h registry ps.0 all)

module _ (os : Platform) (s : Services) where
  analysis_handlers-IsLimited : All IsLimited (analysis_handlers os s)
  unfolding analysis_handlers
  analysis_handlers-IsLimited = (
    plain-IsLimited _ _ (inventory_repo-IsPlain os),
    (
      plain-IsLimited _ _ (find_commands-IsPlain os),
      (
        plain-IsLimited _ _ (inventory_ci-IsPlain os),
        (
          plain-IsLimited _ _ (inventory_dependencies-IsPlain os),
          (
            plain-IsLimited _ _ (check_read_only-IsPlain os),
            (
              plain-IsLimited _ _ (invoke_analyst-IsPlain os s.agents),
              (
                plain-IsLimited _ _ (parse_analyst_output-IsPlain os s.agents s.parser),
                (
                  plain-IsLimited _ _ (score_readiness-IsPlain os),
                  (
                    plain-IsLimited _ _ (assess_strategy-IsPlain os),
                    (
                      plain-IsLimited _ _ (generate_findings-IsPlain os),
                      (plain-IsLimited _ _ (update_backlog-IsPlain os), tt),
                    ),
                  ),
                ),
              ),
            ),
          ),
        ),
      ),
    ),
  )

  implementation_handlers-IsLimited : All IsLimited (implementation_handlers os s)
  unfolding implementation_handlers
  implementation_handlers-IsLimited = (
    plain-IsLimited _ _ (check_design-IsPlain os s.host),
    (
      plain-IsLimited _ _ (invoke_agent-IsPlain os s.host),
      (
        plain-IsLimited _ _ check_quarantine-IsPlain,
        (
          plain-IsLimited _ _ (capture_diff-IsPlain os s.host),
          (
            plain-IsLimited _ _ (run_tests-IsPlain os s.host),
            (
              plain-IsLimited _ _ skip_static_checks-IsPlain,
              (
                plain-IsLimited _ _ (check_scope-IsPlain os s.host),
                (plain-IsLimited _ _ (reproduce_failure-IsPlain os s.host), tt),
              ),
            ),
          ),
        ),
      ),
    ),
  )

  documentation_handlers-IsLimited : All IsLimited (documentation_handlers os s)
  unfolding documentation_handlers
  documentation_handlers-IsLimited = (
    plain-IsLimited _ _ (inventory_docs-IsPlain os),
    (
      plain-IsLimited _ _ (check_doc_links-IsPlain os s.host),
      (plain-IsLimited _ _ (verify_documentation-IsPlain os), tt),
    ),
  )

  dependency_handlers-IsLimited : All IsLimited (dependency_handlers os s)
  unfolding dependency_handlers
  dependency_handlers-IsLimited = (
    plain-IsLimited _ _ (validate_lockfiles-IsPlain os),
    (
      plain-IsLimited _ _ (assess_risk-IsPlain os s.host),
      (
        plain-IsLimited _ _ (check_licenses-IsPlain os s.host),
        (plain-IsLimited _ _ (run_build-IsPlain os s.host), tt),
      ),
    ),
  )

  ci_failure_handlers-IsLimited : All IsLimited (ci_failure_handlers os s)
  unfolding ci_failure_handlers
  ci_failure_handlers-IsLimited = (
    plain-IsLimited _ _ (parse_ci_failure-IsPlain os),
    (
      plain-IsLimited _ _ (classify_failure-IsPlain os),
      (
        plain-IsLimited _ _ (reproduce_ci_failure-IsPlain os s.host),
        (plain-IsLimited _ _ (validate_ci_config-IsPlain os s.host), tt),
      ),
    ),
  )

  security_handlers-IsLimited : All IsLimited (security_handlers os s)
  unfolding security_handlers
  security_handlers-IsLimited = (
    plain-IsLimited _ _ (waive_tests-IsPlain os),
    (
      plain-IsLimited _ _ (scan_secrets-IsPlain os s.host),
      (
        plain-IsLimited _ _ (assess_vulnerabilities-IsPlain os s.host),
        (
          plain-IsLimited _ _ (check_auth_changes-IsPlain os s.host),
          (
            plain-IsLimited _ _ (scan_sinks-IsPlain os s.host),
            (plain-IsLimited _ _ (verify_security-IsPlain os), tt),
          ),
        ),
      ),
    ),
  )

  modelled_handlers-IsLimited : (h : Handler) → Memᴰ h (modelled_handlers os) → IsLimited h
  modelled_handlers-IsLimited h m =
      let (modest, named) = modelled_handlers-IsModest os h m in
      (modest, named, modelled_handlers-IsCareful os h m)

  modelled_handlers-All : All IsLimited (modelled_handlers os)
  modelled_handlers-All = mem→All IsLimited (modelled_handlers os) modelled_handlers-IsLimited

  all_handlers-IsLimited : All IsLimited (all_handlers os s)
  all_handlers-IsLimited =
      let parts =
        All-split IsLimited (control_handlers os) (verification_handlers os ++ release_handlers os)
          modelled_handlers-All in
      let rest = All-split IsLimited (verification_handlers os) (release_handlers os) parts.1 in
      All-append IsLimited _ _ parts.0 (
        All-append IsLimited _ _ analysis_handlers-IsLimited (
          All-append IsLimited _ _ implementation_handlers-IsLimited (
            All-append IsLimited _ _ rest.0 (
              All-append IsLimited _ _ rest.1 (
                All-append IsLimited _ _ documentation_handlers-IsLimited (
                  All-append IsLimited _ _ ci_failure_handlers-IsLimited (
                    All-append IsLimited _ _ dependency_handlers-IsLimited
                      security_handlers-IsLimited)))))))

  -- Every handler of the default registry leaves the verifier decision as it finds it, reports under
  -- its own name and type, and reports a gated pull request only in a context whose verifier decision
  -- is PASS.
  pub build_default_registry-IsLimited :
      (h : Handler) → Memᴰ h (build_default_registry os s) → IsLimited h
  unfolding build_default_registry
  build_default_registry-IsLimited h m =
      All→mem IsLimited h _
        (register_all-All IsLimited (all_handlers os s) [] all_handlers-IsLimited tt) m

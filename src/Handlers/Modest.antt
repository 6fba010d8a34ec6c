-- ===== src/Handlers/Modest.antt =====
-- The handlers leave the verdict to the executor.
use agent_analysis.Prelude.{
  ◌+◌, String, false, ◌≡◌, List, ◌++◌, some, Memᴰ, All, All→mem, arith, Option-cases, inl, inr,
}
use agent_analysis.Platform.{Platform}
use agent_analysis.Schemas.Ledger.{Artifact}
use agent_analysis.Schemas.GateResult.{GateResult}
use agent_analysis.Schemas.Chain.{ChainRequest, HandlerType, HandlerResult}
use agent_analysis.Chains.Context.{ChainContext, ArtifactRequest, record_artifact}
use agent_analysis.Chains.Executor.Verdict.{IsModest}
use agent_analysis.Chains.Executor.Order.{IsNamed}
use agent_analysis.Handlers.Base.{
  Handler, HandlerRegistry, Handling, Identity, ok_result, fail_result, skip_result, from_gates,
}
use agent_analysis.Handlers.Control.{
  handler_of, validate_manifest, map_scrum, lock_with, lock_request, lock_definition_of_done,
  validate_scope, check_evidence, stop_or_loop, control_handlers,
}
use agent_analysis.Handlers.Verification.{
  report_request, report_verdict, verify_analysis, verify_implementation, verification_handlers,
  verifier_of,
}
use agent_analysis.Handlers.Release.{
  gate_pr, create_pr, evaluate, update_memory, record_as, release_handlers,
}

-- `f` leaves the verifier decision, and reports as `self`.
abbrev pub ReportsAs : Identity → (ChainRequest → ChainContext → Handling) → Type 0
ReportsAs self f =
    (request : ChainRequest) (c c' : ChainContext) (result : HandlerResult)
    → f request c ≡ some (result, c')
    → (c'.verifier_decision ≡ c.verifier_decision)
      × (result.handler_type ≡ self.handler_type)
      × (result.handler_name ≡ self.name)

reports-IsModest :
    (self : Identity) (f : ChainRequest → ChainContext → Handling)
    → ReportsAs self f
    → IsModest (handler_of self f) × IsNamed (handler_of self f)
reports-IsModest self f h = (
  record { keeps = λ request c c' result e. let (v, t, n) = h request c c' result e in (v, t) },
  record { named = λ request c c' result e. let (v, t, n) = h request c c' result e in n },
)

from_gates-identity :
    (self : Identity) (gates : List GateResult)
    → ((from_gates self gates false).handler_type ≡ self.handler_type)
      × ((from_gates self gates false).handler_name ≡ self.name)
unfolding from_gates ok_result fail_result
from_gates-identity self gates = (ground arith, ground arith)

validate_manifest-reports :
    ReportsAs
      (record { name = "ManifestValidationHandler"; handler_type = HandlerType.pure_check })
      validate_manifest
unfolding validate_manifest from_gates ok_result fail_result
validate_manifest-reports request c c' result e = ground arith

map_scrum-reports :
    ReportsAs
      (record { name = "ScrumMappingHandler"; handler_type = HandlerType.pure_check })
      map_scrum
unfolding map_scrum from_gates ok_result fail_result
map_scrum-reports request c c' result e = ground arith

validate_scope-reports :
    ReportsAs
      (record { name = "ScopeValidationHandler"; handler_type = HandlerType.pure_check })
      validate_scope
unfolding validate_scope ok_result fail_result
validate_scope-reports request c c' result e = ground arith

check_evidence-reports :
    ReportsAs
      (record { name = "EvidenceGateHandler"; handler_type = HandlerType.pure_check })
      check_evidence
unfolding check_evidence from_gates ok_result fail_result
check_evidence-reports request c c' result e = ground arith

stop_or_loop-reports :
    ReportsAs
      (record { name = "StopOrLoopHandler"; handler_type = HandlerType.pure_check })
      stop_or_loop
unfolding stop_or_loop ok_result
stop_or_loop-reports request c c' result e = ground arith

module _ (os : Platform) where
  record_artifact-keeps :
      (r : ArtifactRequest) (c : ChainContext) {a : Artifact} {c' : ChainContext}
      → record_artifact os r c ≡ some (a, c')
      → c'.verifier_decision ≡ c.verifier_decision
  unfolding record_artifact
  record_artifact-keeps r c e = ground arith

  lock_with-reports :
      (c c' : ChainContext) (locked : String) (result : HandlerResult)
      → lock_with os c locked ≡ some (result, c')
      → (c'.verifier_decision ≡ c.verifier_decision)
        × (result.handler_type ≡ HandlerType.pure_check)
        × (result.handler_name ≡ "DefinitionOfDoneLockHandler")
  unfolding lock_with ok_result
  lock_with-reports c c' locked result e =
      elim (Option-cases (
        record_artifact os (lock_request locked) (record c { locked_dod_version = some locked }))) [
          | inl f ↦ ground arith
          | inr ((a, d), f) ↦ ground (arith, record_artifact-keeps _ _ f)
        ]

  lock_definition_of_done-reports :
      ReportsAs
        (record { name = "DefinitionOfDoneLockHandler"; handler_type = HandlerType.pure_check })
        (lock_definition_of_done os)
  unfolding lock_definition_of_done fail_result
  lock_definition_of_done-reports request c c' result e = elim (Option-cases c.locked_dod_version) [
    | inl f ↦ ground (arith, lock_with-reports c c' request.scrum.definition_of_done_version result)
    | inr (locked, f) ↦ ground (arith, lock_with-reports c c' locked result)
  ]

  report_verdict-reports :
      (name : String) (gates : List GateResult) (report : String) (c c' : ChainContext)
      (result : HandlerResult)
      → report_verdict os name gates report c ≡ some (result, c')
      → (c'.verifier_decision ≡ c.verifier_decision)
        × (result.handler_type ≡ HandlerType.verifier)
        × (result.handler_name ≡ name)
  unfolding report_verdict from_gates ok_result fail_result
  report_verdict-reports name gates report c c' result e =
      elim (Option-cases (
        record_artifact os
          (report_request name (from_gates (verifier_of name) gates false).status report)
          (record c { clock = c.clock + 1 }))) [
            | inl f ↦ ground arith
            | inr ((a, d), f) ↦ ground (arith, record_artifact-keeps _ _ f)
          ]

  verify_analysis-reports : ReportsAs (verifier_of "AnalysisVerifierHandler") (verify_analysis os)
  unfolding verify_analysis
  verify_analysis-reports request c c' result e =
      report_verdict-reports "AnalysisVerifierHandler" _ _ _ c' result e

  verify_implementation-reports :
      ReportsAs (verifier_of "ImplementationVerifierHandler") (verify_implementation os)
  unfolding verify_implementation
  verify_implementation-reports request c c' result e =
      report_verdict-reports "ImplementationVerifierHandler" _ _ _ c' result e

  gate_pr-reports :
      ReportsAs
        (record { name = "PRGateHandler"; handler_type = HandlerType.pr_action })
        (gate_pr os)
  unfolding gate_pr record_as record_artifact ok_result
  gate_pr-reports request c c' result e = ground arith

  create_pr-reports :
      ReportsAs
        (record { name = "PRCreationHandler"; handler_type = HandlerType.pr_action })
        (create_pr os)
  unfolding create_pr record_as record_artifact ok_result skip_result
  create_pr-reports request c c' result e = ground arith

  evaluate-reports :
      ReportsAs
        (record { name = "EvaluatorHandler"; handler_type = HandlerType.evaluator })
        (evaluate os)
  unfolding evaluate record_as record_artifact ok_result
  evaluate-reports request c c' result e = ground arith

  update_memory-reports :
      ReportsAs
        (record { name = "MemoryUpdateHandler"; handler_type = HandlerType.pure_check })
        (update_memory os)
  unfolding update_memory record_as record_artifact ok_result
  update_memory-reports request c c' result e = ground arith

  -- The handlers that are modelled, of those that `build_default_registry` registers.
  abbrev pub modelled_handlers : HandlerRegistry
  modelled_handlers = control_handlers os ++ (verification_handlers os ++ release_handlers os)

  All-reports : All (λ h. IsModest h × IsNamed h) modelled_handlers
  unfolding control_handlers verification_handlers release_handlers
  All-reports = (
    reports-IsModest _ _ validate_manifest-reports,
    (
      reports-IsModest _ _ map_scrum-reports,
      (
        reports-IsModest _ _ lock_definition_of_done-reports,
        (
          reports-IsModest _ _ validate_scope-reports,
          (
            reports-IsModest _ _ check_evidence-reports,
            (
              reports-IsModest _ _ stop_or_loop-reports,
              (
                reports-IsModest _ _ verify_analysis-reports,
                (
                  reports-IsModest _ _ verify_implementation-reports,
                  (
                    reports-IsModest _ _ gate_pr-reports,
                    (
                      reports-IsModest _ _ create_pr-reports,
                      (
                        reports-IsModest _ _ evaluate-reports,
                        (reports-IsModest _ _ update_memory-reports, tt),
                      ),
                    ),
                  ),
                ),
              ),
            ),
          ),
        ),
      ),
    ),
  )

  -- Every control, verifier, PR and evaluation handler leaves the verifier decision as it finds it,
  -- and reports under its own name and type.
  pub modelled_handlers-IsModest : (h : Handler) → Memᴰ h modelled_handlers → IsModest h × IsNamed h
  modelled_handlers-IsModest h m =
      All→mem (λ k. IsModest k × IsNamed k) h modelled_handlers All-reports m

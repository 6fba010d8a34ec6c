-- ===== src/Handlers/Careful.antt =====
-- The handlers report a gated pull request only after a verifier's PASS.
use agent_analysis.Prelude.{
  ◌+◌, String, false, ◌≡◌, ◌≢◌, ap, ◌∙◌, some_injective, Bool-cases, List, some, Memᴰ, All, All→mem,
  arith, Option-cases, inl, inr,
}
use agent_analysis.Platform.{Platform}
use agent_analysis.Schemas.Constants.{Decision, is_pass}
use agent_analysis.Schemas.GateResult.{GateResult}
use agent_analysis.Schemas.Json.{text, get_field}
use agent_analysis.Schemas.Chain.{PrStatus, ChainRequest, HandlerResult}
use agent_analysis.Chains.Context.{ChainContext, record_artifact}
use agent_analysis.Chains.Executor.Gated.{IsCareful}
use agent_analysis.Handlers.Base.{
  Handler, Handling, Identity, ok_result, fail_result, skip_result, from_gates,
}
use agent_analysis.Handlers.Control.{
  handler_of, validate_manifest, map_scrum, lock_with, lock_request, lock_definition_of_done,
  validate_scope, check_evidence, stop_or_loop, control_handlers,
}
use agent_analysis.Handlers.Verification.{
  verifier_of, report_request, report_verdict, verify_analysis, verify_implementation,
  verification_handlers,
}
use agent_analysis.Handlers.Release.{
  gate_pr, create_pr, evaluate, update_memory, record_as, pr_metadata, release_handlers,
}
use agent_analysis.Handlers.Modest.{modelled_handlers}

-- `f` reports a gated pull request only in a context with a PASS.
abbrev IsGuarded : (ChainRequest → ChainContext → Handling) → Type 0
IsGuarded f =
    (request : ChainRequest) (c c' : ChainContext) (result : HandlerResult)
    → f request c ≡ some (result, c')
    → get_field "pr_status" result.metadata ≡ some (text "GATED")
    → c.verifier_decision ≡ Decision.pass

guarded-IsCareful :
    (self : Identity) (f : ChainRequest → ChainContext → Handling)
    → IsGuarded f
    → IsCareful (handler_of self f)
guarded-IsCareful self f h = record { careful = h }

validate_manifest-IsGuarded : IsGuarded validate_manifest
unfolding validate_manifest from_gates ok_result fail_result get_field
validate_manifest-IsGuarded request c c' result e g = ground arith

map_scrum-IsGuarded : IsGuarded map_scrum
unfolding map_scrum from_gates ok_result fail_result get_field
map_scrum-IsGuarded request c c' result e g = ground arith

validate_scope-IsGuarded : IsGuarded validate_scope
unfolding validate_scope ok_result fail_result get_field
validate_scope-IsGuarded request c c' result e g = ground arith

check_evidence-IsGuarded : IsGuarded check_evidence
unfolding check_evidence from_gates ok_result fail_result get_field
check_evidence-IsGuarded request c c' result e g = ground arith

stop_or_loop-IsGuarded : IsGuarded stop_or_loop
unfolding stop_or_loop ok_result get_field
stop_or_loop-IsGuarded request c c' result e g = ground arith

module _ (os : Platform) where
  not_ready_text : get_field "pr_status" (pr_metadata PrStatus.not_ready) ≢ some (text "GATED")
  unfolding pr_metadata get_field
  not_ready_text e = cc

  lock_with-metadata :
      (c c' : ChainContext) (locked : String) (result : HandlerResult)
      → lock_with os c locked ≡ some (result, c')
      → get_field "pr_status" result.metadata ≡ some (text "GATED")
      → c.verifier_decision ≡ Decision.pass
  unfolding lock_with ok_result get_field
  lock_with-metadata c c' locked result e g =
      elim (Option-cases (
        record_artifact os (lock_request locked) (record c { locked_dod_version = some locked }))) [
          | inl f ↦ ground arith
          | inr ((a, d), f) ↦ ground arith
        ]

  report_verdict-metadata :
      (name : String) (gates : List GateResult) (report : String) (c c' : ChainContext)
      (result : HandlerResult)
      → report_verdict os name gates report c ≡ some (result, c')
      → get_field "pr_status" result.metadata ≡ some (text "GATED")
      → c.verifier_decision ≡ Decision.pass
  unfolding report_verdict from_gates ok_result fail_result get_field
  report_verdict-metadata name gates report c c' result e g =
      elim (Option-cases (
        record_artifact os
          (report_request name (from_gates (verifier_of name) gates false).status report)
          (record c { clock = c.clock + 1 }))) [
            | inl f ↦ ground arith
            | inr ((a, d), f) ↦ ground arith
          ]

  lock_definition_of_done-IsGuarded : IsGuarded (lock_definition_of_done os)
  unfolding lock_definition_of_done fail_result get_field
  lock_definition_of_done-IsGuarded request c c' result e g =
      elim (Option-cases c.locked_dod_version) [
        | inl f ↦
            ground (arith, lock_with-metadata c c' request.scrum.definition_of_done_version result)
        | inr (locked, f) ↦ ground (arith, lock_with-metadata c c' locked result)
      ]

  verify_analysis-IsGuarded : IsGuarded (verify_analysis os)
  unfolding verify_analysis
  verify_analysis-IsGuarded request c c' result e g =
      report_verdict-metadata "AnalysisVerifierHandler" _ _ _ c' result e g

  verify_implementation-IsGuarded : IsGuarded (verify_implementation os)
  unfolding verify_implementation
  verify_implementation-IsGuarded request c c' result e g =
      report_verdict-metadata "ImplementationVerifierHandler" _ _ _ c' result e g

  gate_pr-IsGuarded : IsGuarded (gate_pr os)
  unfolding gate_pr record_as ok_result pr_metadata record_artifact get_field
  gate_pr-IsGuarded request c c' result e g = elim (Bool-cases (is_pass c.verifier_decision)) [
    | inl t ↦ ground arith
    | inr f ↦ absurd (
        not_ready_text (
          ap (λ p. get_field "pr_status" p.0.metadata) (some_injective (rw (f, gate_pr) at e)) ∙ g))
  ]

  create_pr-IsGuarded : IsGuarded (create_pr os)
  unfolding create_pr record_as ok_result skip_result pr_metadata record_artifact get_field
  create_pr-IsGuarded request c c' result e g = ground arith

  evaluate-IsGuarded : IsGuarded (evaluate os)
  unfolding evaluate record_as ok_result record_artifact get_field
  evaluate-IsGuarded request c c' result e g = ground arith

  update_memory-IsGuarded : IsGuarded (update_memory os)
  unfolding update_memory record_as ok_result record_artifact get_field
  update_memory-IsGuarded request c c' result e g = ground arith

  All-IsCareful : All IsCareful (modelled_handlers os)
  unfolding control_handlers verification_handlers release_handlers
  All-IsCareful = (
    guarded-IsCareful _ _ validate_manifest-IsGuarded,
    (
      guarded-IsCareful _ _ map_scrum-IsGuarded,
      (
        guarded-IsCareful _ _ lock_definition_of_done-IsGuarded,
        (
          guarded-IsCareful _ _ validate_scope-IsGuarded,
          (
            guarded-IsCareful _ _ check_evidence-IsGuarded,
            (
              guarded-IsCareful _ _ stop_or_loop-IsGuarded,
              (
                guarded-IsCareful _ _ verify_analysis-IsGuarded,
                (
                  guarded-IsCareful _ _ verify_implementation-IsGuarded,
                  (
                    guarded-IsCareful _ _ gate_pr-IsGuarded,
                    (
                      guarded-IsCareful _ _ create_pr-IsGuarded,
                      (
                        guarded-IsCareful _ _ evaluate-IsGuarded,
                        (guarded-IsCareful _ _ update_memory-IsGuarded, tt),
                      ),
                    ),
                  ),
                ),
              ),
            ),
          ),
        ),
      ),
    ),
  )

  -- Every control, verifier, PR and evaluation handler reports a gated pull request only in a context
  -- whose verifier decision is PASS.
  pub modelled_handlers-IsCareful : (h : Handler) → Memᴰ h (modelled_handlers os) → IsCareful h
  modelled_handlers-IsCareful h m = All→mem IsCareful h (modelled_handlers os) All-IsCareful m

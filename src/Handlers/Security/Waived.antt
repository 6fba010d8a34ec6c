-- ===== src/Handlers/Security/Waived.antt =====
-- What the waiver of the tests changes for the evidence gate.
use agent_analysis.Prelude.{true, false, ◌≡◌, ◌≢◌, refl, [], ◌∷◌, some, arith, inl, inr, ◌⊎◌}
use agent_analysis.Platform.{Platform}
use agent_analysis.Schemas.Constants.{is_implementation}
use agent_analysis.Schemas.Json.{Fields, bool, text, set_field, get_field-set_field, flag, truthy}
use agent_analysis.Schemas.Chain.{ChainRequest, HandlerResult, HandlerStatus, TaskType}
use agent_analysis.Chains.Context.{ChainContext, record_artifact}
use agent_analysis.Handlers.Base.{ok_result, skip_result}
use agent_analysis.Handlers.Control.{required_evidence}
use agent_analysis.Handlers.Commands.{recorded}
use agent_analysis.Handlers.Security.{
  not_applicable_reason, is_security_review, set_default, declare_not_applicable, waive_tests,
}

-- The declaration is read back, and a reason of the caller stays.
declare_not_applicable-flag :
    (metadata : Fields) → flag "tests_not_applicable" (declare_not_applicable metadata) ≡ true
unfolding flag truthy declare_not_applicable set_default
declare_not_applicable-flag metadata =
    let reason = text not_applicable_reason in
    let declared = set_field "tests_not_applicable" (bool true) metadata in
    let here =
      get_field-set_field "tests_not_applicable" (bool true) metadata "tests_not_applicable" in
    let there =
      get_field-set_field "tests_not_applicable_reason" reason declared "tests_not_applicable" in
    ground arith

review_cases :
    (t : TaskType)
    → ((t ≡ TaskType.security_review) × (is_security_review t ≡ true))
      ⊎ ((t ≢ TaskType.security_review) × (is_security_review t ≡ false))
unfolding is_security_review
review_cases TaskType.security_review = inl (refl, refl)
review_cases TaskType.ai_readiness_audit = inr ((λ e. cc), refl)
review_cases TaskType.implementation = inr ((λ e. cc), refl)
review_cases TaskType.bug_fix = inr ((λ e. cc), refl)
review_cases TaskType.dependency_update = inr ((λ e. cc), refl)
review_cases TaskType.documentation_update = inr ((λ e. cc), refl)
review_cases TaskType.ci_failure_repair = inr ((λ e. cc), refl)
review_cases TaskType.refactor = inr ((λ e. cc), refl)
review_cases TaskType.test_coverage_expansion = inr ((λ e. cc), refl)

-- The handler that waives the tests of a security review leaves a request that asks the evidence gate
-- for a diff only; for another task it skips and leaves the context as it is.
pub waive_tests-required :
    (os : Platform) (request : ChainRequest) (c : ChainContext) {result : HandlerResult}
    {c' : ChainContext}
    → is_implementation request.mode ≡ true
    → waive_tests os request c ≡ some (result, c')
    → ((request.task_type ≡ TaskType.security_review)
        × (result.status ≡ HandlerStatus.pass)
        × (required_evidence c'.request ≡ "DIFF" ∷ [])
        × (c'.request.scope ≡ request.scope))
      ⊎ ((request.task_type ≢ TaskType.security_review)
          × (result.status ≡ HandlerStatus.skipped)
          × (c' ≡ c))
unfolding waive_tests is_security_review recorded record_artifact required_evidence ok_result
    skip_result
waive_tests-required os request c mode e =
    let declared = declare_not_applicable-flag request.metadata in
    elim (review_cases request.task_type) [
      | inl (t, b) ↦ inl (t, ground arith, ground arith, ground arith)
      | inr (t, b) ↦ inr (t, ground arith, ground arith)
    ]

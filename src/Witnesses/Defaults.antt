-- ===== src/Witnesses/Defaults.antt =====
-- The default registry of handlers, on concrete data.
use agent_analysis.Prelude.{◌≡◌, refl, none, some, Memᴰ}
use agent_analysis.Schemas.Chain.{TaskType, ChainRequest}
use agent_analysis.Schemas.GateResult.{passed, of}
use agent_analysis.Schemas.Chain.{ChainExecutionResult}
use agent_analysis.Chains.Executor.{
  execute, blocked_result, run_chain, loop, start, visit, run_handler, settle,
}
use agent_analysis.Chains.Registry.{resolve_chain}
use agent_analysis.Chains.Rounds.{
  conclude, next_pr_status, enforce_no_repo_mutation, write_checkpoint,
}
use agent_analysis.Handlers.Base.{find_handler, from_gates}
use agent_analysis.Schemas.Chain.{canonical_violations}
use agent_analysis.Handlers.Authority.{can_modify_repo}
use agent_analysis.Handlers.Registered.Judged.{IsJudged, execute-IsJudged}
use agent_analysis.Handlers.Base.{Handler, register}
use agent_analysis.Handlers.Commands.{command_of}
use agent_analysis.Handlers.Registered.{
  register_all, analysis_handlers, implementation_handlers, documentation_handlers,
  ci_failure_handlers, dependency_handlers, security_handlers, build_default_registry,
}
use agent_analysis.Handlers.Control.{handler_of, control_handlers}
use agent_analysis.Handlers.Verification.{verification_handlers}
use agent_analysis.Handlers.Release.{release_handlers}
use agent_analysis.Handlers.Analysis.{inventory_repo}
use agent_analysis.Handlers.Plain.{IsLimited}
use agent_analysis.Handlers.Registered.Limited.{build_default_registry-IsLimited}
use agent_analysis.Handlers.Registered.Complete.{IsServed, build_default_registry-serves}
use agent_analysis.Witnesses.Samples.{os, request}
use agent_analysis.Witnesses.Machines.{empty_store, services}

build_default_registry-serves_example :
    IsServed (build_default_registry os services) TaskType.bug_fix
build_default_registry-serves_example = build_default_registry-serves os services TaskType.bug_fix

abbrev inventory_step : Handler
inventory_step = handler_of (command_of "RepoInventoryHandler") (inventory_repo os)

inventory_step_registered : Memᴰ inventory_step (build_default_registry os services)
unfolding build_default_registry register_all register control_handlers analysis_handlers
    implementation_handlers verification_handlers release_handlers documentation_handlers
    ci_failure_handlers dependency_handlers security_handlers
inventory_step_registered =
    Memᴰ.tail (Memᴰ.tail (Memᴰ.tail (Memᴰ.tail (Memᴰ.tail (Memᴰ.tail (Memᴰ.head refl))))))

build_default_registry-IsLimited_example : IsLimited inventory_step
build_default_registry-IsLimited_example =
    build_default_registry-IsLimited os services inventory_step inventory_step_registered

-- A run with the default registry, of a request for another repository: the first handler stops it.
abbrev foreign : ChainRequest
foreign = record request { repo_path = "/elsewhere" }

abbrev stopped_result : ChainExecutionResult
stopped_result =
    elim (execute os (build_default_registry os services) foreign empty_store none none none) [
      | none ↦ blocked_result os foreign ""
      | some r ↦ r
    ]

stopped :
    execute os (build_default_registry os services) foreign empty_store none none none
    ≡ some stopped_result
unfolding execute resolve_chain run_chain loop start visit run_handler settle conclude find_handler
    next_pr_status enforce_no_repo_mutation can_modify_repo write_checkpoint build_default_registry
    register_all register control_handlers analysis_handlers implementation_handlers
    verification_handlers release_handlers documentation_handlers ci_failure_handlers
    dependency_handlers security_handlers from_gates passed of canonical_violations
stopped = refl

execute-IsJudged_example : IsJudged foreign stopped_result
execute-IsJudged_example = execute-IsJudged os services foreign empty_store none none none stopped

-- ===== src/Handlers/Plain.antt =====
-- What a handler of a task family leaves to others: the verdict and the pull request.
pub mod Implementation
pub mod Families
pub mod Analysis
use agent_analysis.Prelude.{String, ◌≡◌, none, some, arith, Option-cases, inl, inr, if◌then◌else◌}
use agent_analysis.Platform.{Platform}
use agent_analysis.Schemas.Json.{Value, get_field, get_or, truthy, null, text, end}
use agent_analysis.Schemas.Reading.{as_object}
use agent_analysis.Schemas.Chain.{ChainRequest, HandlerResult}
use agent_analysis.Chains.Context.{ChainContext, record_artifact, write_quarantined}
use agent_analysis.Chains.Executor.Verdict.{IsModest}
use agent_analysis.Chains.Executor.Order.{IsNamed}
use agent_analysis.Chains.Executor.Gated.{IsCareful}
use agent_analysis.Handlers.Base.{
  Handler, Handling, Identity, ok_result, fail_result, skip_result, from_gates,
}
use agent_analysis.Handlers.Control.{check_of, handler_of}
use agent_analysis.Handlers.Host.{Host}
use agent_analysis.Handlers.Commands.{Evidence, command_of, recorded, gather_evidence}
use agent_analysis.Handlers.Implementation.{
  agent_invocation, check_quarantine, skip_static_checks, check_design, await_agent, invoke_agent,
  keep_output, check_scope,
}
use agent_analysis.Handlers.Implementation.Diff.{
  record_capture, report_capture, capture_diff, capture, capture_tree, supplied_diff, GitCapture,
}
use agent_analysis.Handlers.Reproduction.{
  report_tests, settle_tests, settle_reproduction, run_tests, report_reproduction, run_reproduction,
  reproduce_failure, reproduce_ci_failure,
}

-- `h` leaves the verifier decision of `c`, reports as `self`, and says nothing of a pull request.
abbrev pub Settles : Identity → ChainContext → Handling → Type 0
Settles self c h =
    (result : HandlerResult) (c' : ChainContext)
    → h ≡ some (result, c')
    → (c'.verifier_decision ≡ c.verifier_decision)
      × (result.handler_type ≡ self.handler_type)
      × (result.handler_name ≡ self.name)
      × (get_field "pr_status" result.metadata ≡ none)

abbrev pub IsPlain : Identity → (ChainRequest → ChainContext → Handling) → Type 0
IsPlain self f = (request : ChainRequest) (c : ChainContext) → Settles self c (f request c)

abbrev pub IsLimited : Handler → Type 0
IsLimited h = IsModest h × IsNamed h × IsCareful h

-- A `pr_status` that is absent is not GATED.
pub plain-IsLimited :
    (self : Identity) (f : ChainRequest → ChainContext → Handling)
    → IsPlain self f
    → IsLimited (handler_of self f)
plain-IsLimited self f h = (
  record { keeps = λ request c c' result e. let (v, t, n, p) = h request c result c' e in (v, t) },
  record { named = λ request c c' result e. let (v, t, n, p) = h request c result c' e in n },
  record {
    careful = λ request c c' result e g. let (v, t, n, p) = h request c result c' e in cc (p, g);
  },
)

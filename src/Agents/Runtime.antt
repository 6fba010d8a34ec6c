-- ===== src/Agents/Runtime.antt =====
-- A single controlled invocation (backend/app/agents/runtime.py, provider.py).
use agent_analysis.Prelude.{String, ◌==◌, List, Option, none, some, if◌then◌else◌, ◌+s◌}
use agent_analysis.Platform.{Platform}
use agent_analysis.Schemas.Models.{ModelRole, ModelSpec, model_role_value}
use agent_analysis.Llm.Recorder.{LlmInvocationRecord, CallStatus, Recorder, record_call}
use agent_analysis.Llm.Router.{Answer, answered, failed, Providers, select_role}

pub data AgentStatus : Type 0 where
  ok blocked : AgentStatus

pub record AgentInvocationResult : Type 0 where
  pub status : AgentStatus
  pub text : String
  pub call : Option LlmInvocationRecord
  pub reason : String
  pub model_id_used : String

unfoldable pub blocked_agent : String → String → AgentInvocationResult
blocked_agent reason model_id = record {
  status = AgentStatus.blocked;
  text = "";
  call = none;
  reason = reason;
  model_id_used = model_id;
}

module _ (os : Platform) (p : Providers) (specs : List ModelSpec) where
  -- The branch of a spec with an adapter.
  unfoldable pub call_agent :
      ModelSpec → Answer → String → Recorder → Option (AgentInvocationResult × Recorder)
  call_agent spec (failed why) prompt r =
      some (blocked_agent ("provider invocation failed: " +s why) spec.model_id, r)
  call_agent spec (answered response) prompt r =
      elim (record_call os p.dump spec prompt response CallStatus.ok r) [
        | none ↦ none
        | some (call, r') ↦ some (
          record {
            status = AgentStatus.ok;
            text = response.text;
            call = some call;
            reason = "";
            model_id_used = spec.model_id;
          },
          r',
        )
      ]

  -- AgentRuntime(specs, adapters, recorder).invoke(request); `none` is an exception of the ledger.
  unfoldable pub invoke_runtime :
      ModelRole → String → Recorder → Option (AgentInvocationResult × Recorder)
  unfolding call_agent blocked_agent select_role
  invoke_runtime role prompt r = elim (select_role role specs) [
    | none ↦ some (blocked_agent ("no model bound to role " +s model_role_value role) "", r)
    | some spec ↦
        if os.sha256 prompt == ""
        then some (blocked_agent "prompt hash required" "", r)
        else elim (p.adapter spec.provider) [
          | none ↦ some (
            blocked_agent ("provider unavailable: no adapter for '" +s spec.provider +s "'")
                spec.model_id,
            r,
          )
          | some invoke ↦ call_agent spec (invoke 0 spec prompt) prompt r
        ]
  ]

-- ===== src/Llm/Router.antt =====
-- The model router (backend/app/llm/base.py). The adapters and the rate limiters are parameters: they
-- may answer otherwise at each call, so each is given the number of calls before it.
mod Selected
pub mod Fallback
pub mod Declared
use agent_analysis.Prelude.{
  ℕ, zero, suc, ◌+◌, String, Bool, not, ◌==◌, ◌&&◌, List, [], ◌∷◌, Option, none, some,
  if◌then◌else◌, ◌+s◌, member,
}
use agent_analysis.Platform.{Platform}
use agent_analysis.Schemas.Models.{ModelRole, ModelSpec, role_eq, model_role_value}
use agent_analysis.Llm.Recorder.{
  LlmResponse, CallStatus, LlmInvocationRecord, Recorder, record_call,
}

-- adapter.invoke(spec, prompt): a response, or the text of an exception.
pub data Answer : Type 0 where
  answered : LlmResponse → Answer
  failed : String → Answer

pub record Providers : Type 0 where
  -- self.adapters.get(provider), and its `invoke`
  pub adapter : String → Option (ℕ → ModelSpec → String → Answer)
  -- the limiter of a model, absent or with its answer to `allow()`
  pub allows : ℕ → String → Bool
  -- record.model_dump_json(indent=2)
  pub dump : LlmInvocationRecord → String

pub data RouterStatus : Type 0 where
  routed : CallStatus → RouterStatus
  permission_denied no_model_for_role : RouterStatus

pub record RouterResult : Type 0 where
  pub status : RouterStatus
  pub call : Option LlmInvocationRecord
  pub reason : String
  pub model_id_used : String

-- The recorder, and the calls of adapters and limiters so far.
pub record Session : Type 0 where
  pub recorder : Recorder
  pub calls : ℕ

-- A result, an exception of the ledger, or no end within the fuel.
pub data Routing : Type 0 where
  returned : RouterResult → Session → Routing
  raised : Routing
  unfinished : Routing

-- `next((s for s in self.specs if s.role == role), None)`
unfoldable pub select_role : ModelRole → List ModelSpec → Option ModelSpec
select_role role [] = none
select_role role (s ∷ ss) = if role_eq s.role role then some s else select_role role ss

-- self.by_id.get(model_id): of two specs with one id the later one.
unfoldable pub by_id : String → List ModelSpec → Option ModelSpec
by_id id [] = none
by_id id (s ∷ ss) = elim (by_id id ss) [
  | some later ↦ some later
  | none ↦ if s.model_id == id then some s else none
]

-- `self.by_id.get(spec.fallback_model_id) if spec.fallback_model_id else None`
unfoldable pub fallback_of : List ModelSpec → ModelSpec → Option ModelSpec
fallback_of specs spec =
    if spec.fallback_model_id == "" then none else by_id spec.fallback_model_id specs

-- A call of one model, up to the choice between a record and a fallback.
pub data Attempt : Type 0 where
  responded : LlmResponse → Attempt
  declined : String → Attempt

unfoldable pub attempt : Providers → ModelSpec → String → ℕ → Attempt
attempt p spec prompt calls =
    if not (p.allows calls spec.model_id)
    then Attempt.declined (spec.model_id +s " throttled")
    else elim (p.adapter spec.provider) [
      | none ↦ Attempt.declined ("no adapter for " +s spec.provider)
      | some invoke ↦ elim (invoke calls spec prompt) [
        | answered response ↦ Attempt.responded response
        | failed why ↦ Attempt.declined (spec.model_id +s " failed: " +s why)
      ]
    ]

-- `if result.record is not None: result.status = "FALLBACK_USED"`
unfoldable pub mark_fallback : Routing → Routing
mark_fallback (returned result s) = elim result.call [
  | none ↦ returned result s
  | some call ↦ returned (record result { status = routed CallStatus.fallback_used }) s
]
mark_fallback raised = raised
mark_fallback unfinished = unfinished

unfoldable pub throttled_result : ModelSpec → String → RouterResult
throttled_result spec reason = record {
  status = routed CallStatus.throttled;
  call = none;
  reason = reason;
  model_id_used = spec.model_id;
}

module _ (os : Platform) (p : Providers) (specs : List ModelSpec) where
  -- The end of `_invoke` on a response.
  unfoldable pub accept : ModelSpec → String → CallStatus → LlmResponse → Session → Routing
  accept spec prompt status response s =
      elim (record_call os p.dump spec prompt response status s.recorder) [
        | none ↦ raised
        | some (call, recorder) ↦
            returned
              (record {
                status = routed status;
                call = some call;
                reason = "";
                model_id_used = spec.model_id;
              })
              (record s { recorder = recorder })
      ]

  -- `_invoke` and `_fallback`, which call one another, on fuel.
  unfoldable pub invoke : ℕ → ModelSpec → String → CallStatus → Session → Routing
  invoke zero spec prompt status s = unfinished
  invoke (suc fuel) spec prompt status s =
      let s' = record s { calls = s.calls + 1 } in
      elim (attempt p spec prompt s.calls) [
        | Attempt.responded response ↦ accept spec prompt status response s'
        | Attempt.declined reason ↦ elim (fallback_of specs spec) [
          | none ↦ returned (throttled_result spec reason) s'
          | some next ↦ mark_fallback (invoke fuel next prompt CallStatus.fallback_used s')
        ]
      ]

  unfoldable pub invoke_role : ℕ → ModelRole → String → Option String → Session → Routing
  unfolding select_role
  invoke_role fuel role prompt permission s =
      let refused : RouterStatus → String → Routing = λ status reason.
        returned (record { status = status; call = none; reason = reason; model_id_used = "" }) s in
      elim (select_role role specs) [
        | none ↦ refused no_model_for_role ("no model bound to " +s model_role_value role)
        | some spec ↦ elim permission [
          | none ↦ invoke fuel spec prompt CallStatus.ok s
          | some name ↦
              if not (name == "") && not (member name spec.permissions)
              then refused permission_denied (spec.model_id +s " lacks permission: " +s name)
              else invoke fuel spec prompt CallStatus.ok s
        ]
      ]

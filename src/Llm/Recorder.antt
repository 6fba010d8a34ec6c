-- ===== src/Llm/Recorder.antt =====
-- The invocation recorder (backend/app/llm/recorder.py, and LLMResponse of backend/app/llm/base.py).
use agent_analysis.Prelude.{ℕ, ◌+◌, String, Bool, false, Option, none, some, ◌+s◌, show_padded4}
use agent_analysis.Platform.{Platform}
use agent_analysis.Schemas.Ledger.{ArtifactType, LedgerResult, Artifact}
use agent_analysis.Schemas.Models.{ModelRole, ModelSpec}
use agent_analysis.Storage.ArtifactStore
use agent_analysis.Storage.ArtifactStore.{ArtifactStore}
use agent_analysis.Storage.EvidenceWriter
use agent_analysis.Storage.EvidenceWriter.{EvidenceLedgerWriter}

pub record LlmResponse : Type 0 where
  pub text : String
  pub tokens_in : ℕ
  pub tokens_out : ℕ

pub data CallStatus : Type 0 where
  ok throttled fallback_used : CallStatus

pub record LlmInvocationRecord : Type 0 where
  pub invocation_id : String
  pub model_id : String
  pub role : ModelRole
  pub run_id : String
  pub task_id : String
  pub request_hash : String
  pub response_hash : String
  pub request_artifact_path : String
  pub response_artifact_path : String
  pub tokens_in : ℕ
  pub tokens_out : ℕ
  pub latency_ms : ℕ
  pub rate_limit_status : CallStatus
  pub used_as_evidence : Bool
  pub claimed_status : String
  pub recorded_by : String
  pub timestamp : String

-- A recorder with the store and the ledger that it writes to; `clock` counts the readings of the time.
pub record Recorder : Type 0 where
  pub run_id : String
  pub task_id : String
  pub store : ArtifactStore
  pub evidence : EvidenceLedgerWriter
  pub counter : ℕ
  pub clock : ℕ

unfoldable pub invocation_id_of : ℕ → String
invocation_id_of n = "LLM" +s show_padded4 n

module _ (os : Platform) where
  -- `self.store.write(…)` of the recorder.
  unfoldable pub keep_text : Recorder → String → String → Artifact × Recorder
  keep_text r name payload =
      let (store, artifact) = ArtifactStore.write os r.store (record {
        run_id = r.run_id;
        task_id = r.task_id;
        name = name;
        payload = payload;
        artifact_type = ArtifactType.llm_invocation;
        recorded_by = "model_router";
        created_at = os.utcnow r.clock;
      }) in
      (artifact, record r { store = store; clock = r.clock + 1 })

  unfoldable pub record_of :
      Recorder → ModelSpec → LlmResponse → CallStatus → Artifact → Artifact → LlmInvocationRecord
  record_of r spec response status req resp = record {
    invocation_id = invocation_id_of r.counter;
    model_id = spec.model_id;
    role = spec.role;
    run_id = r.run_id;
    task_id = r.task_id;
    request_hash = req.hash;
    response_hash = resp.hash;
    request_artifact_path = req.path;
    response_artifact_path = resp.path;
    tokens_in = response.tokens_in;
    tokens_out = response.tokens_out;
    latency_ms = 0;
    rate_limit_status = status;
    used_as_evidence = false;
    claimed_status = "IGNORED";
    recorded_by = "model_router";
    timestamp = os.utcnow r.clock;
  }

  -- recorder.record(spec, prompt, response, …); `dump` is `model_dump_json(indent=2)`, and `none` the
  -- ledger's refusal of an artifact with no hash.
  unfoldable pub record_call :
      (LlmInvocationRecord → String)
      → ModelSpec
      → String
      → LlmResponse
      → CallStatus
      → Recorder
      → Option (LlmInvocationRecord × Recorder)
  unfolding keep_text record_of
  record_call dump spec prompt response status r0 =
      let r = record r0 { counter = r0.counter + 1 } in
      let id = invocation_id_of r.counter in
      let (req, r1) = keep_text r ("llm_request_" +s id +s ".txt") prompt in
      let (resp, r2) = keep_text r1 ("llm_response_" +s id +s ".txt") response.text in
      let made = record_of r2 spec response status req resp in
      let (art, r3) =
        keep_text (record r2 { clock = r2.clock + 1 }) ("llm_invocation_" +s id +s ".json")
          (dump made) in
      elim (EvidenceWriter.append_artifact r3.evidence (os.utcnow r3.clock) art LedgerResult.info
        ("llm:" +s spec.model_id)) [
          | none ↦ none
          | some (evidence, entry) ↦
              some (made, record r3 { evidence = evidence; clock = r3.clock + 1 })
        ]

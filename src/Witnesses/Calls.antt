-- ===== src/Witnesses/Calls.antt =====
-- The router and the read-only analysis, on concrete data.
use agent_analysis.Prelude.{
  ℕ, ◌<◌, ◌≡◌, refl, String, true, ◌==◌, List, [], ◌∷◌, none, some, Memᴰ, some_injective, sym,
  subst, ap, ◌∙◌, arith, if◌then◌else◌,
}
use agent_analysis.Platform.{Platform}
use agent_analysis.Schemas.Json.{text}
use agent_analysis.Schemas.Models.{ModelRole, ModelSpec, role_eq}
use agent_analysis.Storage.ArtifactStore.{ArtifactStore, write}
use agent_analysis.Storage.EvidenceWriter.{append, append_artifact, new_writer}
use agent_analysis.Llm.Recorder.{record_call, CallStatus, LlmInvocationRecord}
use agent_analysis.Llm.Router.{
  Attempt, RouterResult, RouterStatus, returned, select_role, accept, Session, Routing, unfinished,
  by_id, fallback_of, attempt, invoke, invoke_role,
}
use agent_analysis.Llm.Router.Fallback.{
  EndsWithin, Descends, IsTrapped, invoke-EndsWithin, invoke-unfinished,
}
use agent_analysis.Llm.Router.Declared.{IsControlled, invoke_role-IsControlled}
use agent_analysis.Witnesses.Samples.{os, coder}
use agent_analysis.Witnesses.Machines.{failing, answering, empty_store, or_else}

-- Two models, of which one stands in for the other.
abbrev backup : ModelSpec
backup = record coder { model_id = "backup-1" }

abbrev main_model : ModelSpec
main_model = record coder { fallback_model_id = "backup-1" }

abbrev models : List ModelSpec
models = main_model ∷ backup ∷ []

abbrev rank : String → ℕ
rank id = if id == "coder-1" then 1 else 0

backed : fallback_of models main_model ≡ some backup
unfolding fallback_of by_id
backed = refl

unbacked : fallback_of models backup ≡ none
unfolding fallback_of by_id
unbacked = refl

models-Descends : Descends os failing models rank
models-Descends spec next (Memᴰ.head e) f =
    let same = some_injective (sym backed ∙ ap (fallback_of models) (sym e) ∙ f) in
    subst (λ s. rank next.model_id < rank s.model_id) (sym e)
      (subst (λ n. rank n.model_id < rank main_model.model_id) same (omega arith))
models-Descends spec next (Memᴰ.tail (Memᴰ.head e)) f =
    cc (sym unbacked ∙ ap (fallback_of models) (sym e) ∙ f)
models-Descends spec next (Memᴰ.tail (Memᴰ.tail m)) f = elim m [ ]

abbrev session_start : Session
session_start = record {
  recorder = record {
    run_id = "R1";
    task_id = "T1";
    store = empty_store;
    evidence = new_writer "T1" "R1";
    counter = 0;
    clock = 0;
  };
  calls = 0;
}

invoke-EndsWithin_example :
    EndsWithin 0 2 (invoke os failing models 2 main_model "prompt" CallStatus.ok session_start)
invoke-EndsWithin_example =
    invoke-EndsWithin os failing models rank models-Descends 2 main_model "prompt" CallStatus.ok
      session_start (Memᴰ.head refl) (omega arith)

-- A model that is its own fallback.
abbrev circular : ModelSpec
circular = record coder { fallback_model_id = "coder-1" }

circular_declines :
    (n : ℕ) → attempt failing circular "prompt" n ≡ Attempt.declined "coder-1 failed: no service"
unfolding attempt
circular_declines n = refl

circular_backed : fallback_of (circular ∷ []) circular ≡ some circular
unfolding fallback_of by_id
circular_backed = refl

trap : IsTrapped os failing (circular ∷ []) "prompt" (λ spec. spec ≡ circular)
trap = record {
  declines = λ spec e n. (_, ap (λ s. attempt failing s "prompt" n) e ∙ circular_declines n);
  falls_back = λ spec e. (circular, ap (fallback_of (circular ∷ [])) e ∙ circular_backed, refl);
}

invoke-unfinished_example :
    invoke os failing (circular ∷ []) 9 circular "prompt" CallStatus.ok session_start ≡ unfinished
invoke-unfinished_example =
    invoke-unfinished os failing (circular ∷ []) "prompt" (λ spec. spec ≡ circular) trap 9 circular
      CallStatus.ok session_start refl

abbrev no_call : LlmInvocationRecord
no_call = record {
  invocation_id = "";
  model_id = "";
  role = ModelRole.coding_agent;
  run_id = "";
  task_id = "";
  request_hash = "";
  response_hash = "";
  request_artifact_path = "";
  response_artifact_path = "";
  tokens_in = 0;
  tokens_out = 0;
  latency_ms = 0;
  rate_limit_status = CallStatus.ok;
  used_as_evidence = true;
  claimed_status = "";
  recorded_by = "";
  timestamp = "";
}

abbrev routing : Routing
routing =
    invoke_role os answering (coder ∷ []) 1 ModelRole.coding_agent "prompt" (some "write")
      session_start

abbrev settled : Routing → RouterResult × Session
settled (returned result s) = (result, s)
settled _ = (
  record { status = RouterStatus.no_model_for_role; call = none; reason = ""; model_id_used = "" },
  session_start,
)

routed_call : routing ≡ returned (settled routing).0 (settled routing).1
unfolding invoke_role invoke accept attempt select_role record_call append_artifact append write
    role_eq
routed_call = refl

called : (settled routing).0.call ≡ some (or_else no_call (settled routing).0.call)
unfolding invoke_role invoke accept attempt select_role record_call append_artifact append write
    role_eq
called = refl

invoke_role-IsControlled_example :
    IsControlled os answering
      (coder ∷ [])
      ModelRole.coding_agent
      (some "write")
      (or_else no_call (settled routing).0.call)
invoke_role-IsControlled_example =
    invoke_role-IsControlled os answering (coder ∷ []) 1 ModelRole.coding_agent "prompt"
      (some "write") session_start routed_call called

-- A machine on which a path is the name that it ends with.
abbrev flat : Platform
flat = record os { join_path = λ base name. name }

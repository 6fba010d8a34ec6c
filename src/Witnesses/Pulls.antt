-- ===== src/Witnesses/Pulls.antt =====
-- A chain run with a gated pull request, and the store, on concrete data.
use agent_analysis.Prelude.{
  ◌≡◌, ◌==◌, refl, sym, subst, String, true, List, [], ◌∷◌, none, some, Memᴰ, if◌then◌else◌, map,
  arith,
}
use agent_analysis.Schemas.Constants.{is_pass}
use agent_analysis.Schemas.Json.{end, get_field}
use agent_analysis.Schemas.Ledger.{ArtifactType}
use agent_analysis.Schemas.Chain.{HandlerType, HandlerDecision, PrStatus, ChainExecutionResult}
use agent_analysis.Storage.ArtifactStore.{ArtifactStore, WriteRequest, run_dir, write, read_text}
use agent_analysis.Storage.ArtifactStore.ReadBack.{read_text-write}
use agent_analysis.Chains.Registry.{ai_readiness_audit_chain, resolve_chain}
use agent_analysis.Chains.Rounds.{
  conclude, next_pr_status, enforce_no_repo_mutation, set_verifier_decision, write_checkpoint,
}
use agent_analysis.Chains.Executor.{
  execute, blocked_result, run_chain, loop, start, visit, run_handler, settle, finish,
}
use agent_analysis.Chains.Executor.Verdict.{IsModest}
use agent_analysis.Chains.Executor.Pass.{HasPassingVerifier}
use agent_analysis.Chains.Executor.Gated.{IsCareful, execute_gated}
use agent_analysis.Handlers.Authority.{can_modify_repo, can_decide_pass}
use agent_analysis.Handlers.Base.{Handler, HandlerRegistry, ok_result, find_handler}
use agent_analysis.Handlers.Release.{pr_metadata}
use agent_analysis.Witnesses.Samples.{os, request}

-- A handler for each name of the audit chain that passes, and asks for a pull request once the
-- verifier has passed.
abbrev type_of : String → HandlerType
type_of name =
    if name == "AnalysisVerifierHandler" then HandlerType.verifier else HandlerType.pure_check

abbrev asking_handler : String → Handler
asking_handler name = record {
  name = name;
  handler_type = type_of name;
  can_handle = λ request. true;
  handle = λ request c. some (
    ok_result (record { name = name; handler_type = type_of name }) HandlerDecision.go_on [] []
        (if is_pass c.verifier_decision then pr_metadata PrStatus.gated else end),
    c,
  );
}

abbrev asking_registry : HandlerRegistry
asking_registry = map asking_handler ai_readiness_audit_chain.handler_names

asking_handler-IsModest :
    (name : String) → IsModest (asking_handler name) × IsCareful (asking_handler name)
unfolding ok_result get_field
asking_handler-IsModest name = (
  record { keeps = λ request c c' result e. ground arith },
  record { careful = λ request c c' result e g. ground arith },
)

all_asking :
    (names : List String) (h : Handler)
    → Memᴰ h (map asking_handler names)
    → IsModest h × IsCareful h
all_asking [] h m = elim m [ ]
all_asking (n ∷ names) h (Memᴰ.head e) =
    subst (λ k. IsModest k × IsCareful k) (sym e) (asking_handler-IsModest n)
all_asking (n ∷ names) h (Memᴰ.tail m) = all_asking names h m

asking_registry-IsModest : (h : Handler) → Memᴰ h asking_registry → IsModest h × IsCareful h
asking_registry-IsModest h m = all_asking ai_readiness_audit_chain.handler_names h m

abbrev empty_store : ArtifactStore
empty_store = record { root = "/art"; attempt_id = some "R1-a1"; files = [] }

abbrev asked_result : ChainExecutionResult
asked_result = elim (execute os asking_registry request empty_store none none none) [
  | none ↦ blocked_result os request ""
  | some r ↦ r
]

asked : execute os asking_registry request empty_store none none none ≡ some asked_result
unfolding execute resolve_chain run_chain loop start visit run_handler settle conclude find_handler
    next_pr_status enforce_no_repo_mutation can_modify_repo can_decide_pass ok_result
    write_checkpoint set_verifier_decision pr_metadata
asked = refl

asked_gated : asked_result.pr_status ≡ PrStatus.gated
unfolding execute resolve_chain run_chain loop start visit run_handler settle conclude find_handler
    next_pr_status enforce_no_repo_mutation can_modify_repo can_decide_pass ok_result
    write_checkpoint set_verifier_decision finish pr_metadata
asked_gated = refl

execute_gated_example : HasPassingVerifier asked_result.handler_results
execute_gated_example =
    execute_gated os asking_registry request empty_store none none none asking_registry-IsModest
      asked asked_gated

abbrev diff_request : WriteRequest
diff_request = record {
  run_id = "R1";
  task_id = "T1";
  name = "diff.patch";
  payload = "+x";
  artifact_type = ArtifactType.diff;
  recorded_by = "executor";
  created_at = "0";
}

read_text-write_example :
    (read_text os (write os empty_store diff_request).0 "R1" "diff.patch" ≡ (
      if os.join_path (run_dir os empty_store "R1") "diff.patch"
        == os.join_path (run_dir os empty_store "R1") "diff.patch"
      then some "+x"
      else read_text os empty_store "R1" "diff.patch"))
    × ((write os empty_store diff_request).1.hash ≡ os.sha256 "+x")
    × ((write os empty_store diff_request).1.attempt_id ≡ some "R1-a1")
read_text-write_example =
    read_text-write os empty_store diff_request "R1" "diff.patch" (refl, (refl, tt))

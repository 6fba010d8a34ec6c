-- ===== src/Chains/Executor.antt =====
-- The chain executor (backend/app/chains/chain_executor.py, and write_checkpoint of
-- backend/app/storage/checkpoint_writer.py). `none` is an exception that a handler raised or that a
-- `pr_status` outside the enumeration causes; nothing catches it.
pub mod Runs
pub mod Verdict
pub mod Pass
pub mod Order
pub mod Gated
use agent_analysis.Prelude.{
  ℕ, ◌+◌, String, Bool, true, false, not, ◌==◌, ◌+s◌, List, [], ◌∷◌, ◌++◌, Option, none, some,
  if◌then◌else◌, is_none, show_padded2, ◌||◌, pos,
}
use agent_analysis.Platform.{Platform}
use agent_analysis.Schemas.Constants.{
  Decision, canonical_local_project_path, canonical_github_repo_url,
}
use agent_analysis.Schemas.Ledger.{ArtifactType}
use agent_analysis.Schemas.Json.{Value, text, end, get_field, truthy}
use agent_analysis.Schemas.Manifest.{RunManifest}
use agent_analysis.Schemas.Reviews.{ScrumMapping}
use agent_analysis.Schemas.Checkpoint.{Checkpoint}
use agent_analysis.Schemas.Chain.{
  ChainRequest, task_type_value, HandlerType, handler_type_value, HandlerStatus, HandlerDecision,
  HandlerResult, PrStatus, FinalStatus, ChainExecutionResult,
}
use agent_analysis.Storage.ArtifactStore
use agent_analysis.Storage.ArtifactStore.{ArtifactStore}
use agent_analysis.Storage.EvidenceWriter.{new_writer}
use agent_analysis.Chains.Context.{ChainContext, RepoFile, snapshot_repo, same_snapshot}
use agent_analysis.Chains.Registry.{ChainDefinition, resolve_chain}
use agent_analysis.Handlers.Authority.{can_modify_repo, can_decide_pass}
use agent_analysis.Handlers.Base.{Handler, Handling, HandlerRegistry, find_handler}
use agent_analysis.Chains.Rounds.{
  Run, Round, go, halt, executor_result, status_to_decision, next_pr_status, decide_final_status,
  enforce_no_repo_mutation, write_checkpoint, set_verifier_decision, conclude,
}

unfoldable pub deferred_result : String → HandlerResult
unfolding executor_result
deferred_result handler_name =
    executor_result handler_name HandlerType.pure_check HandlerStatus.blocked
      HandlerDecision.blocked ("handler not implemented: " +s handler_name +s " (deferred)")

module _ (os : Platform) where
  -- The result of a registered handler, and the context that it leaves.
  unfoldable pub run_handler : Handler → String → ChainRequest → ChainContext → Handling
  run_handler h handler_name request c =
      if not (h.can_handle request)
      then some (
        executor_result handler_name h.handler_type HandlerStatus.skipped
            HandlerDecision.skip_not_applicable "handler not applicable",
        c,
      )
      else elim (h.handle request c) [
        | none ↦ none
        | some (result, c') ↦ some (enforce_no_repo_mutation os h.handler_type c' result, c')
      ]

  -- The round of a registered handler, from its result on.
  unfoldable pub settle :
      ℕ → String → HandlerType → Run → HandlerResult → ChainContext → Option Round
  unfolding set_verifier_decision conclude
  settle index handler_name type r result c = elim (next_pr_status result r.pr_status) [
    | none ↦ none
    | some pr_status ↦ some (
        conclude result.decision (record r {
          context =
              write_checkpoint os index handler_name result (set_verifier_decision type result c);
          results = r.results ++ result ∷ [];
          pr_status = pr_status;
        }))
  ]

  -- The round of a handler that the registry does not have.
  unfoldable pub defer : ℕ → String → Run → Round
  defer index handler_name r = halt (record r {
    context = write_checkpoint os index handler_name (deferred_result handler_name) r.context;
    results = r.results ++ deferred_result handler_name ∷ [];
    final_status = FinalStatus.blocked;
    stopped = true;
  })

  -- The body of the loop. The request is the object that the context holds, so a handler sees what an
  -- earlier one has changed in it.
  unfoldable pub visit : HandlerRegistry → ℕ → String → Run → Option Round
  unfolding defer
  visit registry index handler_name r = elim (find_handler handler_name registry) [
    | none ↦ some (defer index handler_name r)
    | some h ↦ elim (run_handler h handler_name r.context.request r.context) [
      | none ↦ none
      | some (result, c) ↦ settle index handler_name h.handler_type r result c
    ]
  ]

  unfoldable pub loop : HandlerRegistry → ℕ → List String → Run → Option Run
  loop registry index [] r = some r
  loop registry index (name ∷ names) r = elim (visit registry index name r) [
    | none ↦ none
    | some (halt r') ↦ some r'
    | some (go r') ↦ loop registry (index + 1) names r'
  ]

  unfoldable pub start :
      ChainRequest
      → ArtifactStore
      → Option (List RepoFile)
      → Option RunManifest
      → Option ScrumMapping
      → Run
  start request store repo manifest scrum = record {
    context = record {
      request = request;
      store = store;
      evidence = new_writer request.task_id request.run_id;
      repo = repo;
      clock = 0;
      manifest = manifest;
      scrum = scrum;
      strategic = none;
      locked_dod_version = none;
      repo_snapshot = snapshot_repo os repo;
      changed_files = [];
      test_outcomes = [];
      coding_agent_run_id = "";
      verifier_run_id = "";
      verifier_decision = Decision.pending;
      agent_summary_quarantined = false;
      agent_self_certification_used = false;
      eval_score = none;
      readiness_report = Value.object end;
      findings = [];
      artifacts = [];
      shared = end;
    };
    results = [];
    pr_status = PrStatus.not_required;
    final_status = FinalStatus.pass;
    stopped = false;
  }

  -- The result names the request as it is at the start: what it reads of it are the ids, the task type
  -- and the mode, which no handler of the default registry writes to.
  unfoldable pub finish : ChainRequest → ChainDefinition → Run → ChainExecutionResult
  unfolding decide_final_status
  finish request chain r = record {
    run_id = request.run_id;
    task_id = request.task_id;
    task_type = task_type_value request.task_type;
    chain_id = chain.chain_id;
    mode = request.mode;
    handler_results = r.results;
    final_status = decide_final_status r.final_status r.stopped r.context.verifier_decision;
    verifier_decision = r.context.verifier_decision;
    eval_score = r.context.eval_score;
    pr_status = r.pr_status;
    agent_self_certification_used = r.context.agent_self_certification_used;
    auto_merge = false;
    auto_deploy = false;
    evidence_artifacts = r.context.artifacts;
  }

  -- `_blocked_result`; its reasons are dropped, as in the source.
  unfoldable pub blocked_result : ChainRequest → String → ChainExecutionResult
  blocked_result request chain_id = record {
    run_id = request.run_id;
    task_id = request.task_id;
    task_type = task_type_value request.task_type;
    chain_id = chain_id;
    mode = request.mode;
    handler_results = [];
    final_status = FinalStatus.blocked;
    verifier_decision = Decision.blocked;
    eval_score = none;
    pr_status = PrStatus.blocked;
    agent_self_certification_used = false;
    auto_merge = false;
    auto_deploy = false;
    evidence_artifacts = [];
  }

  -- The run of a resolved chain: the loop from its start.
  unfoldable pub run_chain :
      HandlerRegistry
      → ChainRequest
      → ChainDefinition
      → ArtifactStore
      → Option (List RepoFile)
      → Option RunManifest
      → Option ScrumMapping
      → Option Run
  unfolding loop start
  run_chain registry request chain store repo manifest scrum =
      loop registry 0 chain.handler_names (start request store repo manifest scrum)

  -- The result, with the last state of the run where one was made.
  unfoldable pub execute :
      HandlerRegistry
      → ChainRequest
      → ArtifactStore
      → Option (List RepoFile)
      → Option RunManifest
      → Option ScrumMapping
      → Option ChainExecutionResult
  unfolding run_chain finish blocked_result
  execute registry request store repo manifest scrum =
      elim (resolve_chain (task_type_value request.task_type)) [
        | none ↦ some (blocked_result request "")
        | some chain ↦ elim (run_chain registry request chain store repo manifest scrum) [
          | none ↦ none
          | some r ↦ some (finish request chain r)
        ]
      ]

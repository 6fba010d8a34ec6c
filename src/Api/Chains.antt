-- ===== src/Api/Chains.antt =====
-- The chain endpoints (backend/app/api/routes_chains.py), with the part of
-- backend/app/runtime/runtime_executor.py that they reach. The handlers of a chain are a parameter,
-- and so are the files that lie under the artifacts root.
pub mod Identity
use agent_analysis.Prelude.{
  String, Bool, true, false, not, ◌==◌, ◌&&◌, ◌||◌, ◌+s◌, List, [], ◌∷◌, ◌++◌, Option, none, some,
  if◌then◌else◌, is_none, is_nil, map,
}
use agent_analysis.Platform.{Platform}
use agent_analysis.Schemas.Constants.{Decision, RunType, run_type_value}
use agent_analysis.Schemas.GateResult.{GateResult, of, passed}
use agent_analysis.Schemas.Json.{Value, null, bool, text, array, object, end, field, texts}
use agent_analysis.Schemas.Chain.{
  ChainRequest, canonical_violations, task_type_value, HandlerType, HandlerStatus, HandlerDecision,
  PrStatus, FinalStatus, final_status_value, ChainExecutionResult,
}
use agent_analysis.Chains.Context.{RepoFile}
use agent_analysis.Chains.Registry.{ChainDefinition, chain_definitions, find_chain, resolve_chain}
use agent_analysis.Chains.Rounds.{executor_result}
use agent_analysis.Chains.Executor.{execute}
use agent_analysis.Handlers.Base.{HandlerRegistry}
use agent_analysis.Runtime.Workspace.{
  Paths, Checked, accepted, refused, RunAttempt, WorkspaceAllocation, resolve, allocate,
}
use agent_analysis.Api.Records.{RunRecord, Repository, save, get}
use agent_analysis.Api.Runs.{Reply, Detail, not_found}

-- `_blocked_result`
unfoldable pub refused_result : String → ChainRequest → String → ChainExecutionResult
unfolding executor_result
refused_result run_id request reason = record {
  run_id = if request.run_id == "" then run_id else request.run_id;
  task_id = request.task_id;
  task_type = task_type_value request.task_type;
  chain_id = "";
  mode = request.mode;
  handler_results =
      executor_result "WorkspacePolicy" HandlerType.pure_check HandlerStatus.blocked
        HandlerDecision.blocked reason
      ∷ [];
  final_status = FinalStatus.blocked;
  verifier_decision = Decision.blocked;
  eval_score = none;
  pr_status = PrStatus.blocked;
  agent_self_certification_used = false;
  auto_merge = false;
  auto_deploy = false;
  evidence_artifacts = [];
}

-- The reason that the request is not the registered run's, with its key `identity_mismatch`.
unfoldable pub identity_mismatch : String → RunRecord → ChainRequest → Option String
identity_mismatch run_id r request =
    if not (request.run_id == "") && not (request.run_id == run_id)
    then some ("body.request.run_id '" +s request.run_id +s "' != URL run_id '" +s run_id +s "'")
    else if not (r.manifest.run_id == "") && not (r.manifest.run_id == run_id)
    then some (
        "registered manifest run_id '" +s r.manifest.run_id +s "' != URL run_id '" +s run_id +s "'")
    else if not (r.manifest.task_id == "")
        && not (request.task_id == "")
        && not (request.task_id == r.manifest.task_id)
    then some (
        "body.request.task_id '" +s request.task_id +s "' != registered task_id '"
        +s r.manifest.task_id +s "'")
    else none

-- `request.model_copy(update=updates)`
unfoldable pub bind_identity : String → RunRecord → ChainRequest → ChainRequest
bind_identity run_id r request = record request {
  run_id = run_id;
  task_id =
      if request.task_id == "" && not (r.manifest.task_id == "")
      then r.manifest.task_id
      else request.task_id;
}

-- `RuntimeSettings`, without the provider mode.
pub record RuntimeSettings : Type 0 where
  pub workspace_root : String
  pub artifacts_root : String
  pub production_mode : Bool

-- The path that is asked for.
unfoldable pub source_path : RuntimeSettings → String → String
source_path settings execution_path =
    if settings.production_mode || execution_path == ""
    then settings.workspace_root
    else execution_path

-- A test that ends the endpoint, or the request that goes on.
unfoldable pub admit :
    RuntimeSettings → String → RunRecord → ChainRequest → String → Reply ChainRequest
unfolding identity_mismatch bind_identity
admit settings run_id r request execution_path = elim (identity_mismatch run_id r request) [
  | some why ↦ Reply.http_error 422 (Detail.message why)
  | none ↦
      let bound = bind_identity run_id r request in
      if not (is_nil (canonical_violations bound))
      then Reply.http_error 422 (Detail.violations (canonical_violations bound))
      else if settings.production_mode && not (execution_path == "")
      then Reply.http_error 422 (
          Detail.message
            "execution_path is not accepted in production mode; the server allocates the workspace")
      else Reply.ok bound
]

unfoldable pub with_attempt : RunAttempt → ChainExecutionResult → RunRecord → RunRecord
with_attempt attempt result r = record r {
  attempts =
      r.attempts
      ++ record attempt { final_status = some (final_status_value result.final_status) } ∷ [];
  artifacts = r.artifacts ++ result.evidence_artifacts;
}

-- What an execution finds: the working tree at each path, and the files under the artifacts root.
pub record Disk : Type 0 where
  pub tree : String → Option (List RepoFile)
  pub artifact_files : List (String × String)

module _ (os : Platform) (paths : Paths) where
  -- `RuntimeExecutor.execute`, which asks the workspace policy again; `none` is an exception of a
  -- handler.
  unfoldable pub execute_attempt :
      HandlerRegistry
      → RuntimeSettings
      → Disk
      → ChainRequest
      → WorkspaceAllocation
      → Checked (Option ChainExecutionResult)
  execute_attempt registry settings disk request allocation =
      elim (resolve paths settings.workspace_root allocation.execution_path) [
        | Checked.refused why ↦ Checked.refused why
        | Checked.accepted repo_path ↦ Checked.accepted (
            execute os registry request
              (record {
                root = settings.artifacts_root;
                attempt_id = some allocation.attempt.attempt_id;
                files = disk.artifact_files;
              })
              (disk.tree repo_path) none none)
      ]

  -- The `try` block and its handler: the result, and the record with the attempt if one was made.
  unfoldable pub attempt_run :
      HandlerRegistry
      → RuntimeSettings
      → Disk
      → String
      → RunRecord
      → ChainRequest
      → String
      → String
      → Option (ChainExecutionResult × RunRecord)
  unfolding execute_attempt with_attempt refused_result
  attempt_run registry settings disk run_id r bound requested now =
      elim (allocate paths settings.workspace_root r.run_id r.attempts requested now) [
        | Checked.refused why ↦ some (refused_result run_id bound ("workspace policy: " +s why), r)
        | Checked.accepted allocation ↦
            elim (execute_attempt registry settings disk bound allocation) [
              | Checked.refused why ↦
                  some (refused_result run_id bound ("workspace policy: " +s why), r)
              | Checked.accepted none ↦ none
              | Checked.accepted (some result) ↦
                  some (result, with_attempt allocation.attempt result r)
            ]
      ]

  -- `none` is an exception of a handler, which nothing catches; the repository then stays.
  unfoldable pub execute_chain :
      HandlerRegistry
      → RuntimeSettings
      → Disk
      → String
      → ChainRequest
      → String
      → String
      → Repository
      → Option (Reply ChainExecutionResult) × Repository
  unfolding admit source_path attempt_run
  execute_chain registry settings disk run_id request execution_path now repo =
      elim (get run_id repo) [
        | none ↦ (some not_found, repo)
        | some r ↦ elim (admit settings run_id r request execution_path) [
          | Reply.http_error code detail ↦ (some (Reply.http_error code detail), repo)
          | Reply.ok bound ↦
              elim (attempt_run registry settings disk run_id r bound
                (source_path settings execution_path) now) [
                  | none ↦ (none, repo)
                  | some (result, r') ↦ (
                    some (Reply.ok result),
                    save
                        (record r' {
                          chain_execution_result = some result;
                          state = "EXECUTE_CHAIN";
                        })
                        repo,
                  )
                ]
        ]
      ]

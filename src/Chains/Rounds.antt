-- ===== src/Chains/Rounds.antt =====
-- What one round of the chain executor is made of (backend/app/chains/chain_executor.py, and
-- write_checkpoint of backend/app/storage/checkpoint_writer.py).
use agent_analysis.Prelude.{
  ℕ, ◌+◌, String, Bool, true, false, not, ◌==◌, ◌+s◌, List, [], ◌∷◌, Option, none, some,
  if◌then◌else◌, is_none, show_padded2, ◌||◌, pos,
}
use agent_analysis.Platform.{Platform}
use agent_analysis.Schemas.Constants.{
  Decision, canonical_local_project_path, canonical_github_repo_url,
}
use agent_analysis.Schemas.Ledger.{ArtifactType}
use agent_analysis.Schemas.Json.{Value, text, end, get_field, truthy}
use agent_analysis.Schemas.Checkpoint.{Checkpoint}
use agent_analysis.Schemas.Chain.{
  HandlerType, handler_type_value, HandlerStatus, HandlerDecision, HandlerResult, PrStatus,
  FinalStatus,
}
use agent_analysis.Storage.ArtifactStore
use agent_analysis.Storage.ArtifactStore.{ArtifactStore}
use agent_analysis.Chains.Context.{ChainContext, snapshot_repo, same_snapshot}
use agent_analysis.Handlers.Authority.{can_modify_repo, can_decide_pass}

-- The variables of the loop of `execute`.
pub record Run : Type 0 where
  pub context : ChainContext
  pub results : List HandlerResult
  pub pr_status : PrStatus
  pub final_status : FinalStatus
  pub stopped : Bool

-- The result of one round: go on with the next handler, or `break`.
pub data Round : Type 0 where
  go : Run → Round
  halt : Run → Round

-- A result that the executor makes itself.
unfoldable pub executor_result :
    String → HandlerType → HandlerStatus → HandlerDecision → String → HandlerResult
executor_result name type status decision reason = record {
  handler_name = name;
  handler_type = type;
  status = status;
  decision = decision;
  artifacts_created = [];
  evidence_refs = [];
  gate_results = [];
  next_handler = "";
  failure_reasons = reason ∷ [];
  required_corrections = [];
  metadata = end;
}

-- `_STATUS_TO_DECISION`, with the decision that stands where the status has no entry.
unfoldable pub status_to_decision : HandlerStatus → Decision → Decision
status_to_decision HandlerStatus.pass current = Decision.pass
status_to_decision HandlerStatus.fail current = Decision.fail
status_to_decision HandlerStatus.blocked current = Decision.blocked
status_to_decision HandlerStatus.skipped current = current

-- PrStatus(value)
unfoldable pub to_pr_status : Value → Option PrStatus
to_pr_status (text s) =
    if s == "GATED"
    then some PrStatus.gated
    else if s == "NOT_REQUIRED"
    then some PrStatus.not_required
    else if s == "NOT_READY"
    then some PrStatus.not_ready
    else if s == "BLOCKED"
    then some PrStatus.blocked
    else none
to_pr_status _ = none

pr_status_from : Option Value → PrStatus → Option PrStatus
unfolding to_pr_status truthy
pr_status_from none current = some current
pr_status_from (some value) current = if truthy value then to_pr_status value else some current

-- `_pr_status`
unfoldable pub next_pr_status : HandlerResult → PrStatus → Option PrStatus
unfolding pr_status_from get_field
next_pr_status result current = pr_status_from (get_field "pr_status" result.metadata) current

-- `_final_status`
unfoldable pub decide_final_status : FinalStatus → Bool → Decision → FinalStatus
decide_final_status running true decision = running
decide_final_status running false Decision.pass = FinalStatus.pass
decide_final_status running false Decision.fail = FinalStatus.fail
decide_final_status running false Decision.blocked = FinalStatus.blocked
decide_final_status running false Decision.pending = FinalStatus.blocked

-- Only a verifier's status sets the verifier decision.
unfoldable pub set_verifier_decision : HandlerType → HandlerResult → ChainContext → ChainContext
unfolding status_to_decision
set_verifier_decision type result c = record c {
  verifier_decision =
      if can_decide_pass type
      then status_to_decision result.status c.verifier_decision
      else c.verifier_decision;
}

-- `break` on FAIL, BLOCKED and STOP
unfoldable pub conclude : HandlerDecision → Run → Round
conclude HandlerDecision.fail r =
    halt (record r { final_status = FinalStatus.fail; stopped = true })
conclude HandlerDecision.blocked r =
    halt (record r { final_status = FinalStatus.blocked; stopped = true })
conclude HandlerDecision.stop r = halt r
conclude HandlerDecision.go_on r = go r
conclude HandlerDecision.skip_not_applicable r = go r

module _ (os : Platform) where
  -- `_enforce_no_repo_mutation`
  unfoldable pub enforce_no_repo_mutation :
      HandlerType → ChainContext → HandlerResult → HandlerResult
  enforce_no_repo_mutation type c result =
      if can_modify_repo type || is_none c.repo
      then result
      else if not (same_snapshot (snapshot_repo os c.repo) c.repo_snapshot)
      then executor_result result.handler_name type HandlerStatus.blocked HandlerDecision.blocked
          ("authority violation: " +s handler_type_value type +s " modified the repository")
      else result

  new_checkpoint : ChainContext → String → HandlerResult → Checkpoint
  new_checkpoint c handler_name result = record {
    run_id = c.request.run_id;
    task_id = c.request.task_id;
    goal_id = "";
    sprint_id = "";
    product_backlog_item_id = "";
    state = "EXECUTE_CHAIN";
    previous_state = "";
    next_state = "";
    branch = "";
    commit_hash = "";
    diff_path = "";
    test_output_path = "";
    verifier_report_path = "";
    evidence_ledger_path = "";
    evaluation_report_path = "";
    pr_url = "";
    auto_merge = false;
    auto_deploy = false;
    agent_self_certified = false;
    executor_id = "";
    coding_agent_id = "";
    coding_agent_run_id = "";
    verifier_id = "";
    verifier_run_id = "";
    verifier_decision = c.verifier_decision;
    agent_attempt_count = pos 0;
    verifier_failure_count = pos 0;
    gate_results = result.gate_results;
    next_action = handler_name;
    local_project_path = canonical_local_project_path;
    github_repo_url = canonical_github_repo_url;
    created_at = os.utcnow c.clock;
    updated_at = os.utcnow (c.clock + 1);
  }

  -- f"checkpoint_{index:02d}_{handler_name}.json"
  unfoldable pub checkpoint_name : ℕ → String → String
  checkpoint_name index handler_name =
      "checkpoint_" +s show_padded2 index +s "_" +s handler_name +s ".json"

  -- `_checkpoint`: write_checkpoint with its two readings of the clock, and the store's one. A disk that
  -- refuses the file raises in the source, which ends the run; here the disk takes every file.
  unfoldable pub write_checkpoint : ℕ → String → HandlerResult → ChainContext → ChainContext
  unfolding new_checkpoint checkpoint_name
  write_checkpoint index handler_name result c =
      let (store, artifact) = ArtifactStore.write os c.store (record {
        run_id = c.request.run_id;
        task_id = c.request.task_id;
        name = checkpoint_name index handler_name;
        payload = os.dump_checkpoint (new_checkpoint c handler_name result);
        artifact_type = ArtifactType.checkpoint;
        recorded_by = "executor";
        created_at = os.utcnow (c.clock + 2);
      }) in
      record c { store = store; clock = c.clock + 3 }

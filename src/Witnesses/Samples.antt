-- ===== src/Witnesses/Samples.antt =====
-- The concrete data of the witnesses.
use agent_analysis.Prelude.{true, false, ◌==◌, ◌+s◌, [], ◌∷◌, none, some, pos, show_nat}
use agent_analysis.Platform.{Platform}
use agent_analysis.Schemas.Constants.{
  RunType, Decision, canonical_local_project_path, canonical_github_repo_url,
}
use agent_analysis.Schemas.Json.{end}
use agent_analysis.Schemas.Ledger.{ArtifactType, LedgerResult, LedgerEntry, EvidenceLedger}
use agent_analysis.Schemas.Models.{ModelSpec, ModelRole}
use agent_analysis.Schemas.Manifest.{RunManifest}
use agent_analysis.Schemas.Reviews.{ScrumMapping, StrategicProgramming, VerifierReport, PassFail}
use agent_analysis.Schemas.Chain.{ChainRequest, TaskType}
use agent_analysis.Gates.Tests.{TestOutcome}
use agent_analysis.Runtime.Workspace.{Paths}

abbrev pub os : Platform
os = record {
  sha256 = λ s. "h" +s s;
  fnmatch = λ name pattern. name == pattern;
  dumps = λ v. "json";
  dump_checkpoint = λ c. "checkpoint";
  join_path = λ a b. a +s "/" +s b;
  utcnow = λ n. show_nat n;
  round_ratio = λ a b. show_nat a +s "/" +s show_nat b;
}

abbrev pub paths : Paths
paths = record {
  parts = λ p. p ∷ [];
  resolve = λ p. p;
  parents = λ p. "/srv" ∷ [];
  exists = λ p. true;
  git = λ repo args. none;
}

abbrev pub coder : ModelSpec
coder = record {
  model_id = "coder-1";
  provider = "stub";
  role = ModelRole.coding_agent;
  model_run_id = "run-c";
  permissions = "write" ∷ [];
  temperature = "0.0";
  top_p = "1.0";
  seed = pos 1;
  prompt_hash = "p";
  parallel_tool_calls = false;
  rate_limit = record { requests_per_min = pos 10; tokens_per_min = pos 0 };
  fallback_model_id = "";
  max_retries = pos 0;
}

abbrev pub manifest : RunManifest
manifest = record {
  run_id = "R1";
  goal_id = "G";
  task_id = "T1";
  sprint_id = "S";
  product_backlog_item_id = "PBI";
  run_type = RunType.implementation;
  temperature = "0.0";
  top_p = "1.0";
  seed = pos 7;
  model = "coder-1";
  prompt_hash = "p";
  schema_mode = "strict";
  tools = "allowlisted";
  parallel_tool_calls = false;
  models = coder ∷ [];
  allowed_model_ids = "coder-1" ∷ [];
  auto_merge = false;
  auto_deploy = false;
  created_at = "";
  executor_id = "E";
  coding_agent_id = "A";
  coding_agent_run_id = "run-c";
  verifier_id = "V";
  verifier_run_id = "run-v";
  definition_of_done_version = "1";
  allowed_commands = "pytest" ∷ [];
  forbidden_commands = "rm" ∷ [];
  files_in_scope = "a.py" ∷ [];
  files_out_of_scope = [];
  max_agent_attempts = pos 3;
  max_verifier_failures = pos 2;
  on_exhaustion = "BLOCKED";
  local_project_path = canonical_local_project_path;
  github_repo_url = canonical_github_repo_url;
}

abbrev pub mapping : ScrumMapping
mapping = record {
  product_backlog_item_id = "PBI";
  product_backlog_item_title = "";
  sprint_id = "S";
  sprint_goal = "goal";
  sprint_backlog_task_id = "T1";
  acceptance_criteria = "returns 200 on success" ∷ [];
  definition_of_done_version = "1";
  increment_candidate = false;
  supports_sprint_goal = true;
}

abbrev pub review : StrategicProgramming
review = record {
  responsibility_owner = "storage";
  complexity_risks = record {
    change_amplification = "low";
    cognitive_load = "low";
    unknown_unknowns = "none";
  };
  design_options =
      record {
        option_id = "A";
        summary = "one";
        tradeoffs = "t";
        rejected_or_selected = "selected";
      }
      ∷ record {
        option_id = "B";
        summary = "two";
        tradeoffs = "t";
        rejected_or_selected = "rejected";
      }
      ∷ [];
  selected_design = "A";
  interface_contract = "c";
  complexity_hidden_where = "inside";
  errors_designed_out = [];
  known_design_debt = [];
  introduces_shallow_passthrough = false;
  complexity_leaks_into_callers = false;
  error_handling_scattered = false;
  invalid_states_unhandled = false;
  unjustified_duplication = false;
  increases_change_amplification = false;
  works_but_harder_to_change = false;
}

abbrev pub outcome : TestOutcome
outcome = record {
  command = "pytest";
  ran = true;
  exit_code = some (pos 0);
  output_path = "out.log";
  truncated = false;
  skipped = false;
  skip_approved = false;
}

abbrev pub diff_entry : LedgerEntry
diff_entry = record {
  entry_id = "E0001";
  timestamp = "0";
  artifact_type = ArtifactType.diff;
  artifact_path = "R1/diff.patch";
  command = "git diff";
  result = LedgerResult.pass;
  hash = "h1";
  recorded_by = "executor";
}

abbrev pub ledger : EvidenceLedger
ledger = record {
  task_id = "T1";
  run_id = "R1";
  ledger_entries = diff_entry ∷ [];
  final_status = Decision.pending;
  auto_merge = false;
  auto_deploy = false;
  agent_self_certification_used = false;
}

abbrev pub report : VerifierReport
report = record {
  task_id = "T1";
  run_id = "R1";
  verifier_id = "V";
  verifier_run_id = "run-v";
  coding_agent_run_id = "run-c";
  same_agent_verifier_check = PassFail.pass;
  functional_acceptance = PassFail.pass;
  test_status = PassFail.pass;
  lint_status = PassFail.not_applicable;
  typecheck_status = PassFail.not_applicable;
  build_status = PassFail.not_applicable;
  scope_status = PassFail.pass;
  strategic_programming_gate = record {
    change_amplification = PassFail.pass;
    cognitive_load = PassFail.pass;
    unknown_unknowns = PassFail.pass;
    deep_module = PassFail.pass;
    interface_simplicity = PassFail.pass;
    error_design = PassFail.pass;
    duplication = PassFail.pass;
    scope_control = PassFail.pass;
  };
  evidence_status = PassFail.pass;
  pr_gate_status = PassFail.not_ready;
  decision = Decision.pass;
  failure_reasons = [];
  required_corrections = [];
  timestamp = "0";
}

abbrev pub request : ChainRequest
request = record {
  run_id = "R1";
  task_id = "T1";
  task_type = TaskType.ai_readiness_audit;
  mode = RunType.read_only_analysis;
  state = "";
  repo_path = canonical_local_project_path;
  github_repo_url = canonical_github_repo_url;
  scrum = record {
    product_backlog_item_id = "PBI";
    sprint_goal = "goal";
    sprint_backlog_task_id = "T1";
    definition_of_done_version = "1";
    acceptance_criteria = "returns 200 on success" ∷ [];
  };
  scope = record { files_in_scope = "a.py" ∷ []; files_out_of_scope = [] };
  hard_rules = record {
    auto_merge = false;
    auto_deploy = false;
    parallel_tool_calls = false;
    agent_self_certification_allowed = false;
  };
  artifacts = [];
  evidence_refs = [];
  metadata = end;
}

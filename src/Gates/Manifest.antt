-- ===== src/Gates/Manifest.antt =====
-- Admissibility of a run manifest (backend/app/gates/manifest_gate.py).
pub mod Admits
use agent_analysis.Prelude.{
  String, Bool, true, not, ◌&&◌, ◌||◌, ◌==◌, List, [], ◌∷◌, ◌++◌, if◌then◌else◌, is_nil, collect,
  ◌+s◌,
}
use agent_analysis.Schemas.Constants.{
  RunType, canonical_local_project_path, canonical_github_repo_url,
}
use agent_analysis.Schemas.GateResult.{GateResult, of}
use agent_analysis.Schemas.Manifest.{RunManifest}
use agent_analysis.Gates.ModelPolicy.{model_policy_gate}

-- `run_type in (READ_ONLY_ANALYSIS, IMPLEMENTATION)`
abbrev pub is_known : RunType → Bool
is_known RunType.read_only_analysis = true
is_known RunType.implementation = true

unfoldable pub manifest_checks : RunManifest → List (Bool × String)
manifest_checks m =
    (m.model == "", "model missing")
    ∷ (m.prompt_hash == "", "prompt_hash missing")
    ∷ (not (m.schema_mode == "strict"), "schema_mode must be 'strict'")
    ∷ (not (m.tools == "allowlisted"), "tools must be 'allowlisted'")
    ∷ (m.parallel_tool_calls, "parallel_tool_calls must be false")
    ∷ (m.auto_merge, "auto_merge must be false")
    ∷ (m.auto_deploy, "auto_deploy must be false")
    ∷ (m.definition_of_done_version == "", "definition_of_done_version missing")
    ∷ (is_nil m.files_in_scope, "files_in_scope empty")
    ∷ (m.verifier_id == "" || m.verifier_run_id == "", "verifier identity missing")
    ∷ (
      not (m.coding_agent_run_id == "")
          && not (m.verifier_run_id == "")
          && m.coding_agent_run_id == m.verifier_run_id,
      "coding_agent_run_id must not equal verifier_run_id",
    )
    ∷ (not (is_known m.run_type), "run_type invalid")
    ∷ (
      not (m.local_project_path == canonical_local_project_path),
      "local_project_path must equal " +s canonical_local_project_path,
    )
    ∷ (
      not (m.github_repo_url == canonical_github_repo_url),
      "github_repo_url must equal " +s canonical_github_repo_url,
    )
    ∷ []

unfoldable pub manifest_gate : RunManifest → GateResult
manifest_gate m =
    of "manifest_gate" (
      collect (manifest_checks m)
      ++ (if is_nil m.models then [] else (model_policy_gate m).reasons))

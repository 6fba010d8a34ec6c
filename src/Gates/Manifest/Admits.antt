-- ===== src/Gates/Manifest/Admits.antt =====
-- What the manifest gate admits.
use agent_analysis.Prelude.{
  is_nil, if◌then◌else◌, collect-eq-nil, append-eq-nil, iff_trans, both, Bool-cases, inl, inr, true,
  refl, false, eq_iff, ◌≡◌, ◌≢◌, ◌↔◌, [], arith, All,
}
use agent_analysis.Schemas.Constants.{canonical_local_project_path, canonical_github_repo_url}
use agent_analysis.Schemas.Manifest.{RunManifest}
use agent_analysis.Schemas.GateResult.{of, passed, passed-of}
use agent_analysis.Gates.ModelPolicy.{model_policy_gate}
use agent_analysis.Gates.ModelPolicy.Admits.{IsUnderPolicy, model_policy_reasons_iff}
use agent_analysis.Gates.Manifest.{manifest_checks, manifest_gate}

-- The hard rules of a manifest, in the words of the documentation.
pub record IsAdmissible (m : RunManifest) : Type 0 where
  pub has_model : m.model ≢ ""
  pub has_prompt_hash : m.prompt_hash ≢ ""
  pub strict : m.schema_mode ≡ "strict"
  pub allowlisted : m.tools ≡ "allowlisted"
  pub sequential : m.parallel_tool_calls ≡ false
  pub no_auto_merge : m.auto_merge ≡ false
  pub no_auto_deploy : m.auto_deploy ≡ false
  pub has_definition_of_done : m.definition_of_done_version ≢ ""
  pub scoped : m.files_in_scope ≢ []
  pub has_verifier : m.verifier_id ≢ ""
  pub has_verifier_run : m.verifier_run_id ≢ ""
  pub independent : m.coding_agent_run_id ≢ m.verifier_run_id
  pub canonical_path : m.local_project_path ≡ canonical_local_project_path
  pub canonical_repo : m.github_repo_url ≡ canonical_github_repo_url

checks_iff : (m : RunManifest) → All (λ c. c.0 ≡ false) (manifest_checks m) ↔ IsAdmissible m
unfolding manifest_checks
checks_iff m =
    let model = eq_iff m.model "" in
    let prompt = eq_iff m.prompt_hash "" in
    let mode = eq_iff m.schema_mode "strict" in
    let tools = eq_iff m.tools "allowlisted" in
    let done = eq_iff m.definition_of_done_version "" in
    let verifier = eq_iff m.verifier_id "" in
    let verifier_run = eq_iff m.verifier_run_id "" in
    let coding_run = eq_iff m.coding_agent_run_id "" in
    let same_run = eq_iff m.coding_agent_run_id m.verifier_run_id in
    let path = eq_iff m.local_project_path canonical_local_project_path in
    let repo = eq_iff m.github_repo_url canonical_github_repo_url in
    (λ h. ground arith, λ h. ground arith)

-- The reasons that the model policy adds: none for an empty registry.
folded_iff :
    (m : RunManifest)
    → ((if is_nil m.models then [] else (model_policy_gate m).reasons) ≡ [])
      ↔ (m.models ≢ [] → IsUnderPolicy m)
unfolding model_policy_gate of
folded_iff m = elim (Bool-cases (is_nil m.models)) [
  | inl e ↦ rw (e, if◌then◌else◌) (λ _ filled. absurd (filled (ground arith)), λ _. refl)
  | inr e ↦
      rw (e, if◌then◌else◌)
        (
          λ h _. (model_policy_reasons_iff m).0 h,
          λ h. (model_policy_reasons_iff m).1 (h (ground arith)),
        )
]

-- The manifest gate passes exactly the admissible manifests whose registry, where one is declared,
-- is under the model policy.
pub manifest_gate-passed_iff :
    (m : RunManifest)
    → (passed (manifest_gate m) ≡ true) ↔ (IsAdmissible m × (m.models ≢ [] → IsUnderPolicy m))
unfolding manifest_gate
manifest_gate-passed_iff m = iff_trans (passed-of "manifest_gate" _) (
    iff_trans (append-eq-nil _ _)
      (both (iff_trans (collect-eq-nil _) (checks_iff m)) (folded_iff m)))

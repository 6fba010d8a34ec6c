-- ===== src/Gates/ModelPolicy.antt =====
-- Admissibility of a run's model registry (backend/app/gates/model_policy_gate.py).
pub mod Admits
use agent_analysis.Prelude.{
  String, Bool, not, ◌&&◌, ◌||◌, ◌==◌, List, [], ◌∷◌, ◌++◌, if◌then◌else◌, any, is_nil, member,
  join, collect, gather, select, ◌+s◌, sorted_set,
}
use agent_analysis.Schemas.Constants.{RunType}
use agent_analysis.Schemas.GateResult.{GateResult, of}
use agent_analysis.Schemas.Models.{ModelRole, ModelSpec, model_role_value, role_eq, is_set}
use agent_analysis.Schemas.Manifest.{RunManifest}

-- `_REQUIRED_ROLES`. It is a Python set: the order of its members is not specified.
unfoldable pub required_roles : RunType → List ModelRole
required_roles RunType.implementation = ModelRole.coding_agent ∷ ModelRole.verifier ∷ []
required_roles RunType.read_only_analysis = ModelRole.verifier ∷ []

-- `{m.model_id for m in models if m.model_id}`
unfoldable pub declared_ids : List ModelSpec → List String
declared_ids models = select (λ m. m.model_id) (λ m. not (m.model_id == "")) models

-- `m.model_id or f"<{m.role.value}>"`
unfoldable pub label_of : ModelSpec → String
unfolding model_role_value
label_of m = if m.model_id == "" then "<" +s model_role_value m.role +s ">" else m.model_id

-- The tests that the loop makes of one model.
unfoldable pub model_checks : List String → List String → ModelSpec → List (Bool × String)
unfolding label_of
model_checks allowlist declared m =
    let label = label_of m in
    (
      m.model_id == "" || m.provider == "",
      "model undeclared (model_id/provider missing): " +s label,
    )
    ∷ (m.model_run_id == "", "model not role-bound (model_run_id missing): " +s label)
    ∷ (
      not (m.model_id == "") && not (member m.model_id allowlist),
      "model not allowlisted: " +s label,
    )
    ∷ (not (is_set m.rate_limit), "model not rate-limited: " +s label)
    ∷ (is_nil m.permissions, "model not permissioned: " +s label)
    ∷ (m.prompt_hash == "", "determinism not pinned (prompt_hash missing): " +s label)
    ∷ (m.parallel_tool_calls, "parallel_tool_calls must be false: " +s label)
    ∷ (
      not (m.fallback_model_id == "") && not (member m.fallback_model_id declared),
      "fallback model not declared: " +s m.fallback_model_id,
    )
    ∷ (
      not (m.fallback_model_id == "")
          && member m.fallback_model_id declared
          && not (member m.fallback_model_id allowlist),
      "fallback model not allowlisted: " +s m.fallback_model_id,
    )
    ∷ []

unfoldable pub has_role : List ModelSpec → ModelRole → Bool
has_role models role = any (λ m. role_eq m.role role) models

-- `{m.model_run_id for m in models if m.role == role and m.model_run_id}`
unfoldable pub run_ids : ModelRole → List ModelSpec → List String
run_ids role models =
    select (λ m. m.model_run_id) (λ m. role_eq m.role role && not (m.model_run_id == "")) models

-- `coding & verifying`
unfoldable pub overlap : List ModelSpec → List String
overlap models =
    select (λ id. id) (λ id. member id (run_ids ModelRole.verifier models))
      (run_ids ModelRole.coding_agent models)

unfoldable pub role_reasons : RunManifest → List String
role_reasons manifest =
    gather
      (λ role. collect (
        (not (has_role manifest.models role), "required role missing: " +s model_role_value role)
        ∷ []))
      (required_roles manifest.run_type)

unfoldable pub independence_reasons : List ModelSpec → List String
independence_reasons models = collect (
    (
      not (is_nil (overlap models)),
      "verifier model_run_id must not equal coding agent model_run_id: "
          +s join ", " (sorted_set (overlap models)),
    )
    ∷ [])

unfoldable pub model_policy_reasons : RunManifest → List String
model_policy_reasons manifest =
    gather (λ m. collect (model_checks manifest.allowed_model_ids (declared_ids manifest.models) m))
      manifest.models
    ++ (role_reasons manifest ++ independence_reasons manifest.models)

unfoldable pub model_policy_gate : RunManifest → GateResult
model_policy_gate manifest =
    of "model_policy_gate" (if is_nil manifest.models then [] else model_policy_reasons manifest)

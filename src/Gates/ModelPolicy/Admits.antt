-- ===== src/Gates/ModelPolicy/Admits.antt =====
-- What the model policy gate admits.
use mathlib.Core.Bool.{false≢true}
use agent_analysis.Prelude.{
  iff_trans, if◌then◌else◌, String, true, false, not, ◌==◌, eq_iff, ◌≡◌, ◌≢◌, ◌↔◌, sym, List, [],
  arith, is_nil, collect, collect-eq-nil, gather-eq-nil, append-eq-nil, All, if◌then◌else◌, Memᴰ,
  member, member→mem, mem→member, any→mem, mem→any, All-map, select→mem, mem→select, select-eq-nil,
  ◌∙◌, Bool-cases, inl, inr, ap, ◌&&◌,
}
use agent_analysis.Schemas.GateResult.{passed, passed-of}
use agent_analysis.Schemas.Models.{ModelRole, ModelSpec, role_eq, is_set}
use agent_analysis.Schemas.Manifest.{RunManifest}
use agent_analysis.Gates.ModelPolicy.{
  required_roles, declared_ids, model_checks, has_role, run_ids, overlap, role_reasons,
  independence_reasons, model_policy_reasons, model_policy_gate,
}

-- The rules for one declared model.
pub record IsControlled (allowed declared : List String) (m : ModelSpec) : Type 0 where
  pub has_id : m.model_id ≢ ""
  pub has_provider : m.provider ≢ ""
  pub role_bound : m.model_run_id ≢ ""
  pub allowlisted : Memᴰ m.model_id allowed
  pub rate_limited : is_set m.rate_limit ≡ true
  pub permissioned : m.permissions ≢ []
  pub pinned : m.prompt_hash ≢ ""
  pub sequential : m.parallel_tool_calls ≡ false
  pub fallback_declared : m.fallback_model_id ≢ "" → Memᴰ m.fallback_model_id declared
  pub fallback_allowlisted : m.fallback_model_id ≢ "" → Memᴰ m.fallback_model_id allowed

pub model_checks_iff :
    (allowed declared : List String) (m : ModelSpec)
    → (collect (model_checks allowed declared m) ≡ []) ↔ IsControlled allowed declared m
unfolding model_checks
model_checks_iff allowed declared m =
    let model = eq_iff m.model_id "" in
    let provider = eq_iff m.provider "" in
    let run = eq_iff m.model_run_id "" in
    let prompt = eq_iff m.prompt_hash "" in
    let fallback = eq_iff m.fallback_model_id "" in
    let in_allowed = member→mem m.model_id allowed in
    let allowed_in = mem→member m.model_id allowed in
    let fb_in_allowed = member→mem m.fallback_model_id allowed in
    let fb_allowed_in = mem→member m.fallback_model_id allowed in
    let fb_in_declared = member→mem m.fallback_model_id declared in
    let fb_declared_in = mem→member m.fallback_model_id declared in
    (
      λ h. let checks = (collect-eq-nil (model_checks allowed declared m)).0 h in ground arith,
      λ h. (collect-eq-nil (model_checks allowed declared m)).1 (ground arith),
    )

role_eq_iff : (a b : ModelRole) → (role_eq a b ≡ true) ↔ (a ≡ b)
unfolding role_eq
role_eq_iff a b = ground arith

-- Some model is bound to the role.
abbrev pub IsCovered : List ModelSpec → ModelRole → Type 0
IsCovered models role = (m : ModelSpec) × Memᴰ m models × (m.role ≡ role)

has_role_iff :
    (models : List ModelSpec) (role : ModelRole)
    → (has_role models role ≡ true) ↔ IsCovered models role
unfolding has_role
has_role_iff models role = (
  λ h.
      let (m, i, e) = any→mem (λ (n : ModelSpec). role_eq n.role role) models h in
      (m, i, (role_eq_iff m.role role).0 e),
  λ h. mem→any (λ n. role_eq n.role role) h.0 models h.1 ((role_eq_iff h.0.role role).1 h.2),
)

role_reasons_iff :
    (m : RunManifest) → (role_reasons m ≡ []) ↔ All (IsCovered m.models) (required_roles m.run_type)
unfolding role_reasons required_roles
role_reasons_iff m = (
  λ h.
      All-map _ _ (λ role e. (has_role_iff m.models role).0 (ground arith))
        (required_roles m.run_type) ((gather-eq-nil _ (required_roles m.run_type)).0 h),
  λ h. (gather-eq-nil _ (required_roles m.run_type)).1 (
      All-map _ _ (λ role c. let e = (has_role_iff m.models role).1 c in ground arith)
        (required_roles m.run_type) h),
)

-- No coding run is also a verifying run.
abbrev pub AreIndependent : List ModelSpec → Type 0
AreIndependent models =
    (c v : ModelSpec)
    → Memᴰ c models
    → Memᴰ v models
    → c.role ≡ ModelRole.coding_agent
    → v.role ≡ ModelRole.verifier
    → c.model_run_id ≢ ""
    → c.model_run_id ≢ v.model_run_id

mem-run_ids :
    (role : ModelRole) (models : List ModelSpec) (m : ModelSpec)
    → Memᴰ m models
    → m.role ≡ role
    → m.model_run_id ≢ ""
    → Memᴰ m.model_run_id (run_ids role models)
unfolding run_ids
mem-run_ids role models m i r b =
    mem→select (λ n. n.model_run_id) (λ n. role_eq n.role role && not (n.model_run_id == "")) models
      m i
      (let e = (role_eq_iff m.role role).1 r in let q = eq_iff m.model_run_id "" in ground arith)

run_ids-source :
    (role : ModelRole) (models : List ModelSpec) (id : String)
    → Memᴰ id (run_ids role models)
    → (m : ModelSpec) × Memᴰ m models
      × (m.role ≡ role)
      × (m.model_run_id ≢ "")
      × (id ≡ m.model_run_id)
unfolding run_ids
run_ids-source role models id h =
    let (m, i, t, q) =
      select→mem (λ (n : ModelSpec). n.model_run_id)
        (λ n. role_eq n.role role && not (n.model_run_id == "")) models id h in
    (
      m,
      i,
      (role_eq_iff m.role role).0 (ground arith),
      (let e = eq_iff m.model_run_id "" in ground arith),
      q,
    )

no_clash :
    {models : List ModelSpec}
    → AreIndependent models
    → (id : String) → Memᴰ id (run_ids ModelRole.coding_agent models)
    → Memᴰ id (run_ids ModelRole.verifier models)
    → ⊥
no_clash {models} h id m n =
    let (c, i, rc, b, p) = run_ids-source ModelRole.coding_agent models id m in
    let (v, j, rv, b', q) = run_ids-source ModelRole.verifier models id n in
    h c v i j rc rv b (sym p ∙ q)

independence_iff : (models : List ModelSpec) → (overlap models ≡ []) ↔ AreIndependent models
unfolding overlap
independence_iff models = (
  λ h c v i j rc rv b e.
      let verifying = mem-run_ids ModelRole.verifier models v j rv (λ q. b (e ∙ q)) in
      let tested =
        (select-eq-nil (λ id. id) (λ id. member id (run_ids ModelRole.verifier models))
            (run_ids ModelRole.coding_agent models)).0
          h c.model_run_id (mem-run_ids ModelRole.coding_agent models c i rc b) in
      let found = mem→member v.model_run_id (run_ids ModelRole.verifier models) verifying in
      absurd (
        false≢true
          (sym tested ∙ ap (λ id. member id (run_ids ModelRole.verifier models)) e ∙ found)),
  λ h.
      (select-eq-nil (λ id. id) (λ id. member id (run_ids ModelRole.verifier models))
          (run_ids ModelRole.coding_agent models)).1
        λ id m. elim (Bool-cases (member id (run_ids ModelRole.verifier models))) [
          | inl e ↦ absurd (no_clash h id m (member→mem id (run_ids ModelRole.verifier models) e))
          | inr e ↦ e
        ],
)

independence_reasons_iff :
    (models : List ModelSpec) → (independence_reasons models ≡ []) ↔ (overlap models ≡ [])
unfolding independence_reasons
independence_reasons_iff models = (λ h. ground arith, λ h. ground arith)

-- A registry under the model policy.
pub record IsUnderPolicy (m : RunManifest) : Type 0 where
  pub controlled : All (IsControlled m.allowed_model_ids (declared_ids m.models)) m.models
  pub covered : All (IsCovered m.models) (required_roles m.run_type)
  pub independent : AreIndependent m.models

pub model_policy_reasons_iff : (m : RunManifest) → (model_policy_reasons m ≡ []) ↔ IsUnderPolicy m
unfolding model_policy_reasons
model_policy_reasons_iff m = (
  λ h.
      let (models, rest) = (append-eq-nil _ _).0 h in
      let (roles, runs) = (append-eq-nil _ _).0 rest in
      record {
        controlled =
            All-map _ _ (λ s. (model_checks_iff _ _ s).0) m.models
              ((gather-eq-nil _ m.models).0 models);
        covered = (role_reasons_iff m).0 roles;
        independent = (independence_iff m.models).0 ((independence_reasons_iff m.models).0 runs);
      },
  λ u. (append-eq-nil _ _).1 (
    (gather-eq-nil _ m.models).1
        (All-map _ _ (λ s. (model_checks_iff _ _ s).1) m.models u.controlled),
    (append-eq-nil _ _).1 (
      (role_reasons_iff m).1 u.covered,
      (independence_reasons_iff m.models).1 ((independence_iff m.models).1 u.independent),
    ),
  ),
)

-- The model policy gate passes a non-empty registry exactly when each model is declared, bound,
-- allowlisted, rate-limited, permissioned and pinned, its fallback is declared and allowlisted, the
-- roles that the run type requires are covered, and no run id serves a coding agent and a verifier.
pub model_policy_gate-passed_iff :
    (m : RunManifest) → m.models ≢ [] → (passed (model_policy_gate m) ≡ true) ↔ IsUnderPolicy m
unfolding model_policy_gate
model_policy_gate-passed_iff m h =
    let filled : is_nil m.models ≡ false = ground arith in
    rw (filled, if◌then◌else◌)
      (iff_trans (passed-of "model_policy_gate" (model_policy_reasons m))
        (model_policy_reasons_iff m))

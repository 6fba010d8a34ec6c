-- ===== src/Llm/Router/Selected.antt =====
-- The models that a role, an id or a fallback selects are declared.
use agent_analysis.Prelude.{
  String, ◌==◌, ◌≡◌, sym, subst, List, [], ◌∷◌, some, some_injective, Memᴰ, Option-cases,
  Bool-cases, inl, inr, if◌then◌else◌,
}
use agent_analysis.Schemas.Models.{ModelRole, ModelSpec, role_eq}
use agent_analysis.Llm.Router.{select_role, by_id, fallback_of}

by_id-declared :
    (id : String) (ss : List ModelSpec) {spec : ModelSpec} → by_id id ss ≡ some spec → Memᴰ spec ss
unfolding by_id
by_id-declared id [] e = cc
by_id-declared id (t ∷ ts) e = elim (Option-cases (by_id id ts)) [
  | inr (later, f) ↦
      Memᴰ.tail
        (subst (λ x. Memᴰ x ts) (some_injective (rw (f, by_id) at e)) (by_id-declared id ts f))
  | inl f ↦ elim (Bool-cases (t.model_id == id)) [
    | inl g ↦ Memᴰ.head (sym (some_injective (rw (f, by_id, g, if◌then◌else◌) at e)))
    | inr g ↦ cc (rw (f, by_id, g, if◌then◌else◌) at e)
  ]
]

pub select_role-declared :
    (role : ModelRole) (ss : List ModelSpec) {spec : ModelSpec}
    → select_role role ss ≡ some spec
    → Memᴰ spec ss
unfolding select_role
select_role-declared role [] e = cc
select_role-declared role (t ∷ ts) e = elim (Bool-cases (role_eq t.role role)) [
  | inl g ↦ Memᴰ.head (sym (some_injective (rw (g, if◌then◌else◌) at e)))
  | inr g ↦ Memᴰ.tail (select_role-declared role ts (rw (g, if◌then◌else◌) at e))
]

pub fallback_of-declared :
    (specs : List ModelSpec) (spec : ModelSpec) {next : ModelSpec}
    → fallback_of specs spec ≡ some next
    → Memᴰ next specs
unfolding fallback_of
fallback_of-declared specs spec e = elim (Bool-cases (spec.fallback_model_id == "")) [
  | inl g ↦ cc (rw (g, if◌then◌else◌) at e)
  | inr g ↦ by_id-declared spec.fallback_model_id specs (rw (g, if◌then◌else◌) at e)
]

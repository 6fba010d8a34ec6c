-- ===== src/Handlers/Registered/Complete.antt =====
-- The default registry has every handler that a chain names.
use agent_analysis.Prelude.{
  String, ◌≡◌, refl, Bool, true, not, some, [], ◌∷◌, Memᴰ, all, all→mem, is_none, Option-cases, inl,
  inr, Bool-cases, eq_iff, ◌==◌, if◌then◌else◌, some_injective, sym, ap, ◌∙◌,
}
use agent_analysis.Platform.{Platform}
use agent_analysis.Schemas.Chain.{TaskType, task_type_value}
use agent_analysis.Chains.Registry.{
  ChainDefinition, ai_readiness_audit_chain, implementation_chain, bug_fix_chain,
  security_review_chain, dependency_update_chain, documentation_update_chain,
  ci_failure_repair_chain, resolve_chain,
}
use agent_analysis.Handlers.Base.{Handler, HandlerRegistry, find_handler, register}
use agent_analysis.Handlers.Control.{control_handlers}
use agent_analysis.Handlers.Verification.{verification_handlers}
use agent_analysis.Handlers.Release.{release_handlers}
use agent_analysis.Handlers.Registered.{
  Services, analysis_handlers, implementation_handlers, documentation_handlers, dependency_handlers,
  ci_failure_handlers, security_handlers, register_all, build_default_registry,
}

-- The registry has a handler of this name.
abbrev pub IsRegistered : HandlerRegistry → String → Type 0
IsRegistered registry name = (h : Handler) × (find_handler name registry ≡ some h) × (h.name ≡ name)

find_handler-name :
    (name : String) (registry : HandlerRegistry) {h : Handler}
    → find_handler name registry ≡ some h
    → h.name ≡ name
unfolding find_handler
find_handler-name name [] e = cc
find_handler-name name (g ∷ gs) {h} e = elim (Bool-cases (g.name == name)) [
  | inl t ↦
      sym (ap (λ (k : Handler). k.name) (some_injective (rw (t, if◌then◌else◌) at e)))
      ∙ (eq_iff g.name name).0 t
  | inr f ↦ find_handler-name name gs (rw (f, if◌then◌else◌) at e)
]

-- `self.registry.get(name) is not None`
is_registered : HandlerRegistry → String → Bool
is_registered registry name = not (is_none (find_handler name registry))

is_registered-IsRegistered :
    (registry : HandlerRegistry) (name : String)
    → is_registered registry name ≡ true
    → IsRegistered registry name
unfolding is_registered
is_registered-IsRegistered registry name e = elim (Option-cases (find_handler name registry)) [
  | inl f ↦ cc (rw f at e)
  | inr (h, f) ↦ (h, f, find_handler-name name registry f)
]

-- The chain of a task type names only handlers of the registry.
abbrev pub IsServed : HandlerRegistry → TaskType → Type 0
IsServed registry t =
    (d : ChainDefinition) × (resolve_chain (task_type_value t) ≡ some d)
    × ((name : String) → Memᴰ name d.handler_names → IsRegistered registry name)

module _ (os : Platform) (s : Services) where
  served :
      (t : TaskType) (d : ChainDefinition)
      → resolve_chain (task_type_value t) ≡ some d
      → all (is_registered (build_default_registry os s)) d.handler_names ≡ true
      → IsServed (build_default_registry os s) t
  served t d e h = (
    d,
    e,
    λ name m.
        is_registered-IsRegistered (build_default_registry os s) name
          (all→mem (is_registered (build_default_registry os s)) name d.handler_names h m),
  )

  -- The chain of each task type names only handlers that the default registry has, each under that
  -- name, so no chain meets the executor's branch for a handler that is not implemented.
  pub build_default_registry-serves : (t : TaskType) → IsServed (build_default_registry os s) t
  unfolding is_registered resolve_chain find_handler build_default_registry register_all register
      control_handlers analysis_handlers implementation_handlers verification_handlers
      release_handlers documentation_handlers ci_failure_handlers dependency_handlers
      security_handlers
  build_default_registry-serves TaskType.ai_readiness_audit =
      served TaskType.ai_readiness_audit ai_readiness_audit_chain refl refl
  build_default_registry-serves TaskType.implementation =
      served TaskType.implementation implementation_chain refl refl
  build_default_registry-serves TaskType.bug_fix = served TaskType.bug_fix bug_fix_chain refl refl
  build_default_registry-serves TaskType.security_review =
      served TaskType.security_review security_review_chain refl refl
  build_default_registry-serves TaskType.dependency_update =
      served TaskType.dependency_update dependency_update_chain refl refl
  build_default_registry-serves TaskType.documentation_update =
      served TaskType.documentation_update documentation_update_chain refl refl
  build_default_registry-serves TaskType.ci_failure_repair =
      served TaskType.ci_failure_repair ci_failure_repair_chain refl refl
  build_default_registry-serves TaskType.refactor =
      served TaskType.refactor implementation_chain refl refl
  build_default_registry-serves TaskType.test_coverage_expansion =
      served TaskType.test_coverage_expansion implementation_chain refl refl

-- ===== src/Chains/Registry/Routing.antt =====
-- Routing is total and deterministic.
use agent_analysis.Prelude.{
  String, true, ◌≡◌, refl, some, Memᴰ, List, [], ◌∷◌, inl, inr, ◌⊎◌, member,
}
use agent_analysis.Schemas.Constants.{RunType}
use agent_analysis.Schemas.Chain.{TaskType, task_type_value}
use agent_analysis.Chains.Registry.{
  ChainDefinition, ai_readiness_audit_chain, implementation_chain, bug_fix_chain,
  security_review_chain, dependency_update_chain, documentation_update_chain,
  ci_failure_repair_chain, chain_definitions, resolve_chain,
}

-- The last of a list of names.
abbrev pub EndsWith : String → List String → Type 0
EndsWith name [] = ⊥
EndsWith name (n ∷ []) = n ≡ name
EndsWith name (n ∷ m ∷ ns) = EndsWith name (m ∷ ns)

-- What routing promises of the chain of a task type.
abbrev pub IsRouted : TaskType → ChainDefinition → Type 0
IsRouted t d =
    (resolve_chain (task_type_value t) ≡ some d)
    × Memᴰ d chain_definitions
    × EndsWith "StopOrLoopHandler" d.handler_names
    × (member "EvidenceGateHandler" d.handler_names ≡ true)
    × ((d.mode ≡ RunType.read_only_analysis) ⊎ (member "PRGateHandler" d.handler_names ≡ true))

-- Every task type resolves to a registered chain, which ends by finalising the ledger, gates the
-- evidence, and gates the pull request unless it is read-only.
pub resolve_chain_total : (t : TaskType) → (d : ChainDefinition) × IsRouted t d
unfolding resolve_chain
resolve_chain_total TaskType.ai_readiness_audit =
    (ai_readiness_audit_chain, (refl, Memᴰ.head refl, refl, refl, inl refl))
resolve_chain_total TaskType.implementation =
    (implementation_chain, (refl, Memᴰ.tail (Memᴰ.head refl), refl, refl, inr refl))
resolve_chain_total TaskType.bug_fix =
    (bug_fix_chain, (refl, Memᴰ.tail (Memᴰ.tail (Memᴰ.head refl)), refl, refl, inr refl))
resolve_chain_total TaskType.security_review = (
  security_review_chain,
  (refl, Memᴰ.tail (Memᴰ.tail (Memᴰ.tail (Memᴰ.head refl))), refl, refl, inr refl),
)
resolve_chain_total TaskType.dependency_update = (
  dependency_update_chain,
  (refl, Memᴰ.tail (Memᴰ.tail (Memᴰ.tail (Memᴰ.tail (Memᴰ.head refl)))), refl, refl, inr refl),
)
resolve_chain_total TaskType.documentation_update = (
  documentation_update_chain,
  (
    refl,
    Memᴰ.tail (Memᴰ.tail (Memᴰ.tail (Memᴰ.tail (Memᴰ.tail (Memᴰ.head refl))))),
    refl,
    refl,
    inr refl,
  ),
)
resolve_chain_total TaskType.ci_failure_repair = (
  ci_failure_repair_chain,
  (
    refl,
    Memᴰ.tail (Memᴰ.tail (Memᴰ.tail (Memᴰ.tail (Memᴰ.tail (Memᴰ.tail (Memᴰ.head refl)))))),
    refl,
    refl,
    inr refl,
  ),
)
resolve_chain_total TaskType.refactor =
    (implementation_chain, (refl, Memᴰ.tail (Memᴰ.head refl), refl, refl, inr refl))
resolve_chain_total TaskType.test_coverage_expansion =
    (implementation_chain, (refl, Memᴰ.tail (Memᴰ.head refl), refl, refl, inr refl))

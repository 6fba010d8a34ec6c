-- ===== src/Chains/Executor/Runs.antt =====
-- A result of the executor comes from a run of the registered chain.
use agent_analysis.Prelude.{List, ◌≡◌, sym, Option, some, some_injective, Option-cases, inl, inr}
use agent_analysis.Platform.{Platform}
use agent_analysis.Schemas.Manifest.{RunManifest}
use agent_analysis.Schemas.Reviews.{ScrumMapping}
use agent_analysis.Schemas.Chain.{ChainRequest, ChainExecutionResult, task_type_value}
use agent_analysis.Storage.ArtifactStore.{ArtifactStore}
use agent_analysis.Chains.Context.{RepoFile}
use agent_analysis.Chains.Registry.{ChainDefinition, resolve_chain}
use agent_analysis.Chains.Registry.Routing.{resolve_chain_total}
use agent_analysis.Handlers.Base.{HandlerRegistry}
use agent_analysis.Chains.Rounds.{Run}
use agent_analysis.Chains.Executor.{run_chain, finish, execute}

module _ (os : Platform) where
  pub execute-runs :
      (registry : HandlerRegistry) (request : ChainRequest) (store : ArtifactStore)
      (repo : Option (List RepoFile)) (manifest : Option RunManifest) (scrum : Option ScrumMapping)
      {result : ChainExecutionResult}
      → execute os registry request store repo manifest scrum ≡ some result
      → (chain : ChainDefinition) × (r : Run) × (resolve_chain (task_type_value request.task_type)
          ≡ some chain)
        × (run_chain os registry request chain store repo manifest scrum ≡ some r)
        × (result ≡ finish os request chain r)
  unfolding execute
  execute-runs registry request store repo manifest scrum e =
      let (chain, routed) = resolve_chain_total request.task_type in
      elim (Option-cases (run_chain os registry request chain store repo manifest scrum)) [
        | inl f ↦ cc (rw (routed.0, f, execute) at e)
        | inr (r, f) ↦
            (chain, r, routed.0, f, sym (some_injective (rw (routed.0, f, execute) at e)))
      ]

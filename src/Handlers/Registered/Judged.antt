-- ===== src/Handlers/Registered/Judged.antt =====
-- A chain run with the default registry (chain_executor.py with handlers/base.py, of backend/app).
use agent_analysis.Prelude.{false, ◌≡◌, List, Option, some, any}
use agent_analysis.Platform.{Platform}
use agent_analysis.Schemas.Constants.{Decision}
use agent_analysis.Schemas.Manifest.{RunManifest}
use agent_analysis.Schemas.Reviews.{ScrumMapping}
use agent_analysis.Schemas.Chain.{
  ChainRequest, FinalStatus, PrStatus, ChainExecutionResult, task_type_value,
}
use agent_analysis.Storage.ArtifactStore.{ArtifactStore}
use agent_analysis.Chains.Context.{RepoFile}
use agent_analysis.Chains.Registry.{ChainDefinition, resolve_chain}
use agent_analysis.Chains.Executor.{execute}
use agent_analysis.Chains.Executor.Verdict.{
  verdict, outcome, is_failing, is_blocking, execute-verdict,
}
use agent_analysis.Chains.Executor.Pass.{HasPassingVerifier, execute_pass}
use agent_analysis.Chains.Executor.Order.{IsWalk, execute-IsWalk}
use agent_analysis.Chains.Executor.Gated.{execute_gated}
use agent_analysis.Handlers.Registered.{Services, build_default_registry}
use agent_analysis.Handlers.Registered.Limited.{build_default_registry-IsLimited}

-- What holds of the result of a run: who decided it, which handlers it visited, and what a PASS and a
-- gated pull request took.
pub record IsJudged (request : ChainRequest) (result : ChainExecutionResult) : Type 0 where
  pub decided : result.final_status ≡ outcome result.handler_results
  pub judged : result.verifier_decision ≡ verdict Decision.pending result.handler_results
  pub chain : ChainDefinition
  pub resolved : resolve_chain (task_type_value request.task_type) ≡ some chain
  pub walked : IsWalk result.handler_results chain.handler_names
  pub passing :
      result.final_status ≡ FinalStatus.pass
      → HasPassingVerifier result.handler_results
        × (any is_failing result.handler_results ≡ false)
        × (any is_blocking result.handler_results ≡ false)
  pub gated : result.pr_status ≡ PrStatus.gated → HasPassingVerifier result.handler_results

module _ (os : Platform) (s : Services) where
  -- With the handlers that the program registers, and whatever the machine, git, the agent and the
  -- caller's metadata are, a run that returns is decided by its results, visits the handlers of its
  -- chain in order up to the first that stops it, is PASS only with a verifier that passed and no
  -- handler that decided FAIL or BLOCKED, and has a gated pull request only with a verifier that passed.
  pub execute-IsJudged :
      (request : ChainRequest) (store : ArtifactStore) (repo : Option (List RepoFile))
      (manifest : Option RunManifest) (scrum : Option ScrumMapping) {result : ChainExecutionResult}
      → execute os (build_default_registry os s) request store repo manifest scrum ≡ some result
      → IsJudged request result
  execute-IsJudged request store repo manifest scrum e =
      let registry = build_default_registry os s in
      let limited = build_default_registry-IsLimited os s in
      let (decided, judged) =
        execute-verdict os registry request store repo manifest scrum (λ h m. (limited h m).0) e in
      let (chain, resolved, id, walked) =
        execute-IsWalk os registry request store repo manifest scrum (λ h m. (limited h m).1) e in
      record {
        decided = decided;
        judged = judged;
        chain = chain;
        resolved = resolved;
        walked = walked;
        passing =
            execute_pass os registry request store repo manifest scrum (λ h m. (limited h m).0) e;
        gated =
            execute_gated os registry request store repo manifest scrum
              (λ h m. ((limited h m).0, (limited h m).2)) e;
      }

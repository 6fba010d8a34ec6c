-- ===== src/Chains/Executor/Pass.antt =====
-- What a PASS of a chain run takes.
use agent_analysis.Prelude.{
  ◌⊎◌, false, ◌≡◌, refl, List, [], ◌∷◌, Option, some, if◌then◌else◌, any, arith, Memᴰ, inl, inr,
}
use agent_analysis.Platform.{Platform}
use agent_analysis.Schemas.Constants.{Decision}
use agent_analysis.Schemas.Manifest.{RunManifest}
use agent_analysis.Schemas.Reviews.{ScrumMapping}
use agent_analysis.Schemas.Chain.{
  ChainRequest, HandlerType, HandlerStatus, HandlerResult, FinalStatus, ChainExecutionResult,
}
use agent_analysis.Storage.ArtifactStore.{ArtifactStore}
use agent_analysis.Chains.Context.{RepoFile}
use agent_analysis.Handlers.Authority.{can_decide_pass}
use agent_analysis.Handlers.Base.{Handler, HandlerRegistry}
use agent_analysis.Chains.Rounds.{status_to_decision}
use agent_analysis.Chains.Executor.{execute}
use agent_analysis.Chains.Executor.Verdict.{
  verdict, is_failing, is_blocking, IsModest, execute-verdict,
}

-- A verifier that passed, among the results.
abbrev pub HasPassingVerifier : List HandlerResult → Type 0
HasPassingVerifier results =
    (r : HandlerResult) × Memᴰ r results
    × (r.handler_type ≡ HandlerType.verifier)
    × (r.status ≡ HandlerStatus.pass)

pub passing_verifier :
    (d : Decision) (results : List HandlerResult)
    → verdict d results ≡ Decision.pass
    → (d ≡ Decision.pass) ⊎ HasPassingVerifier results
unfolding can_decide_pass status_to_decision
passing_verifier d [] e = inl e
passing_verifier d (r ∷ rs) e =
    elim (passing_verifier
      (if can_decide_pass r.handler_type then status_to_decision r.status d else d) rs e) [
        | inl p ↦ here r.handler_type r.status refl refl p
        | inr (q, m, t, s) ↦ inr (q, Memᴰ.tail m, t, s)
      ]
  where
    here :
        (t : HandlerType) (s : HandlerStatus)
        → r.handler_type ≡ t
        → r.status ≡ s
        → (if can_decide_pass r.handler_type then status_to_decision r.status d else d)
          ≡ Decision.pass
        → (d ≡ Decision.pass) ⊎ HasPassingVerifier (r ∷ rs)
    here HandlerType.verifier HandlerStatus.pass a b p = inr (r, Memᴰ.head refl, a, b)
    here _ _ a b p = inl (ground arith)

-- A chain run is PASS only if some verifier handler passed and no handler decided FAIL or BLOCKED,
-- provided that the registered handlers leave the verdict alone and report under their own types.
pub execute_pass :
    (os : Platform) (registry : HandlerRegistry) (request : ChainRequest) (store : ArtifactStore)
    (repo : Option (List RepoFile)) (manifest : Option RunManifest) (scrum : Option ScrumMapping)
    {result : ChainExecutionResult}
    → ((h : Handler) → Memᴰ h registry → IsModest h)
    → execute os registry request store repo manifest scrum ≡ some result
    → result.final_status ≡ FinalStatus.pass
    → HasPassingVerifier result.handler_results
      × (any is_failing result.handler_results ≡ false)
      × (any is_blocking result.handler_results ≡ false)
execute_pass os registry request store repo manifest scrum {result} modest e p =
    let v = execute-verdict os registry request store repo manifest scrum modest e in
    let passing : verdict Decision.pending result.handler_results ≡ Decision.pass = ground arith in
    (
      elim (passing_verifier Decision.pending result.handler_results passing) [
        | inl q ↦ cc
        | inr q ↦ q
      ],
      ground arith,
      ground arith,
    )

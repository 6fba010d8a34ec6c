-- ===== src/Chains/Executor/Gated.antt =====
-- When a chain run reports a gated pull request.
use agent_analysis.Prelude.{
  ◌⊎◌, inl, inr, eq_iff, ℕ, ◌+◌, String, ◌≡◌, sym, ap, ◌∙◌, subst, List, [], ◌∷◌, ◌++◌, Option,
  some, Memᴰ, arith, Option-cases, Bool-cases, some_injective,
}
use agent_analysis.Platform.{Platform}
use agent_analysis.Schemas.Constants.{Decision}
use agent_analysis.Schemas.Json.{
  Value, null, bool, int, float, text, array, object, get_field, truthy,
}
use agent_analysis.Schemas.Manifest.{RunManifest}
use agent_analysis.Schemas.Reviews.{ScrumMapping}
use agent_analysis.Schemas.Chain.{
  ChainRequest, HandlerType, HandlerDecision, HandlerResult, PrStatus, ChainExecutionResult,
}
use agent_analysis.Storage.ArtifactStore.{ArtifactStore}
use agent_analysis.Chains.Context.{ChainContext, RepoFile}
use agent_analysis.Handlers.Base.{Handler, HandlerRegistry, find_handler}
use agent_analysis.Chains.Rounds.{
  Run, Round, go, halt, executor_result, to_pr_status, next_pr_status, enforce_no_repo_mutation,
  conclude,
}
use agent_analysis.Chains.Executor.Runs.{execute-runs}
use agent_analysis.Chains.Executor.Verdict.{
  IsModest, IsOngoing, visit-IsSound, started, find_handler→mem,
}
use agent_analysis.Chains.Executor.Pass.{HasPassingVerifier, passing_verifier}
use agent_analysis.Chains.Executor.{
  run_handler, settle, deferred_result, defer, visit, loop, start, finish, run_chain, execute,
}

-- A handler reports a gated pull request only after a verifier's PASS.
pub record IsCareful (h : Handler) : Type 0 where
  pub careful :
      (request : ChainRequest) (c c' : ChainContext) (result : HandlerResult)
      → h.handle request c ≡ some (result, c')
      → get_field "pr_status" result.metadata ≡ some (text "GATED")
      → c.verifier_decision ≡ Decision.pass

to_pr_status-gated : (v : Value) → to_pr_status v ≡ some PrStatus.gated → v ≡ text "GATED"
unfolding to_pr_status
to_pr_status-gated (text s) e = let same = eq_iff s "GATED" in ap text (ground arith)
to_pr_status-gated null e = cc
to_pr_status-gated (bool b) e = cc
to_pr_status-gated (int n) e = cc
to_pr_status-gated (float f) e = cc
to_pr_status-gated (array vs) e = cc
to_pr_status-gated (object fs) e = cc

next_pr_status-gated :
    (y : HandlerResult) (current : PrStatus)
    → next_pr_status y current ≡ some PrStatus.gated
    → (current ≡ PrStatus.gated) ⊎ (get_field "pr_status" y.metadata ≡ some (text "GATED"))
unfolding next_pr_status
next_pr_status-gated y current e = elim (Option-cases (get_field "pr_status" y.metadata)) [
  | inl f ↦ inl (ground arith)
  | inr (v, f) ↦ elim (Bool-cases (truthy v)) [
    | inl t ↦ inr (f ∙ ap some (to_pr_status-gated v (rw (f, t, next_pr_status) at e)))
    | inr t ↦ inl (some_injective (rw (f, t, next_pr_status) at e))
  ]
]

-- What the loop keeps.
abbrev Guards : Run → Type 0
Guards r = r.pr_status ≡ PrStatus.gated → HasPassingVerifier r.results

abbrev run_of : Round → Run
run_of (go r) = r
run_of (halt r) = r

mem-append {ℓ} : {A : Type ℓ} {x : A} (xs ys : List A) → Memᴰ x xs → Memᴰ x (xs ++ ys)
mem-append [] ys m = elim m [ ]
mem-append (x ∷ xs) ys (Memᴰ.head e) = Memᴰ.head e
mem-append (x ∷ xs) ys (Memᴰ.tail m) = Memᴰ.tail (mem-append xs ys m)

passing-append :
    (xs ys : List HandlerResult) → HasPassingVerifier xs → HasPassingVerifier (xs ++ ys)
passing-append xs ys (r, m, t, s) = (r, mem-append xs ys m, t, s)

conclude-Guards : (d : HandlerDecision) (r : Run) → Guards r → Guards (run_of (conclude d r))
unfolding conclude
conclude-Guards HandlerDecision.fail r g = g
conclude-Guards HandlerDecision.blocked r g = g
conclude-Guards HandlerDecision.stop r g = g
conclude-Guards HandlerDecision.go_on r g = g
conclude-Guards HandlerDecision.skip_not_applicable r g = g

module _ (os : Platform) where
  run_handler-careful :
      (h : Handler) (name : String) (request : ChainRequest) (c : ChainContext) {y : HandlerResult}
      {c' : ChainContext}
      → IsCareful h
      → run_handler os h name request c ≡ some (y, c')
      → get_field "pr_status" y.metadata ≡ some (text "GATED")
      → c.verifier_decision ≡ Decision.pass
  unfolding run_handler enforce_no_repo_mutation executor_result get_field
  run_handler-careful h name request c m e g = elim (Option-cases (h.handle request c)) [
    | inl f ↦ ground arith
    | inr ((y, c'), f) ↦ ground (arith, m.careful request c c' y f)
  ]

  settle-Guards :
      (index : ℕ) (name : String) (type : HandlerType) (r : Run) (y : HandlerResult)
      (c : ChainContext) {round : Round}
      → IsOngoing r
      → Guards r
      → (get_field "pr_status" y.metadata ≡ some (text "GATED")
          → r.context.verifier_decision ≡ Decision.pass)
      → settle os index name type r y c ≡ some round
      → Guards (run_of round)
  unfolding settle
  settle-Guards index name type r y c {round} v g careful e =
      elim (Option-cases (next_pr_status y r.pr_status)) [
        | inl f ↦ cc (rw (f, settle) at e)
        | inr (p, f) ↦
            subst (λ k. Guards (run_of k)) (some_injective (rw (f, settle) at e))
              (conclude-Guards y.decision _ (λ q.
                passing-append r.results (y ∷ [])
                  (elim (next_pr_status-gated y r.pr_status (f ∙ ap some q)) [
                    | inl was ↦ g was
                    | inr now ↦
                        elim (passing_verifier Decision.pending r.results
                          (sym v.judged ∙ careful now)) [ inl z ↦ cc | inr passed ↦ passed ]
                  ])))
      ]

  visit-Guards :
      (registry : HandlerRegistry) (index : ℕ) (name : String) (r : Run) {round : Round}
      → ((h : Handler) → Memᴰ h registry → IsCareful h)
      → IsOngoing r
      → Guards r
      → visit os registry index name r ≡ some round
      → Guards (run_of round)
  unfolding visit defer
  visit-Guards registry index name r {round} careful v g e =
      elim (Option-cases (find_handler name registry)) [
        | inl f ↦
            subst (λ k. Guards (run_of k)) (some_injective (rw (f, visit) at e))
              (λ q. passing-append r.results (deferred_result name ∷ []) (g q))
        | inr (h, f) ↦ elim (Option-cases (run_handler os h name r.context.request r.context)) [
          | inl k ↦ cc (rw (f, k, visit) at e)
          | inr ((y, c), k) ↦
              settle-Guards index name h.handler_type r y c v g
                (run_handler-careful h name r.context.request r.context
                  (careful h (find_handler→mem name registry f)) k)
                (rw (f, k, visit) at e)
        ]
      ]

  loop-Guards :
      (registry : HandlerRegistry)
      → ((h : Handler) → Memᴰ h registry → IsModest h × IsCareful h)
      → (index : ℕ) (names : List String) (r r' : Run) → IsOngoing r
      → Guards r
      → loop os registry index names r ≡ some r'
      → Guards r'
  unfolding loop
  loop-Guards registry trusted index [] r r' v g e = subst Guards (some_injective e) g
  loop-Guards registry trusted index (name ∷ names) r r' v g e =
      elim (Option-cases (visit os registry index name r)) [
        | inl f ↦ cc (rw (f, loop) at e)
        | inr (halt q, f) ↦
            subst Guards (some_injective (rw (f, loop) at e))
              (visit-Guards registry index name r (λ h m. (trusted h m).1) v g f)
        | inr (go q, f) ↦
            loop-Guards registry trusted (index + 1) names q r'
              (visit-IsSound os registry index name r (λ h m. (trusted h m).0) v f)
              (visit-Guards registry index name r (λ h m. (trusted h m).1) v g f)
              (rw (f, loop) at e)
      ]

  -- If every registered handler leaves the verdict alone and reports a gated pull request only when
  -- the verifier decision is PASS, then a run that returns with a gated pull request has a verifier
  -- handler that passed.
  pub execute_gated :
      (registry : HandlerRegistry) (request : ChainRequest) (store : ArtifactStore)
      (repo : Option (List RepoFile)) (manifest : Option RunManifest) (scrum : Option ScrumMapping)
      {result : ChainExecutionResult}
      → ((h : Handler) → Memᴰ h registry → IsModest h × IsCareful h)
      → execute os registry request store repo manifest scrum ≡ some result
      → result.pr_status ≡ PrStatus.gated
      → HasPassingVerifier result.handler_results
  unfolding run_chain finish start
  execute_gated registry request store repo manifest scrum {result} trusted e gated =
      let (chain, r, resolved, ran, made) =
        execute-runs os registry request store repo manifest scrum e in
      let guards =
        loop-Guards registry trusted 0 chain.handler_names _ r
          (started os request store repo manifest scrum) (λ q. cc) ran in
      subst (λ k. HasPassingVerifier k.handler_results) (sym made)
        (guards (sym (ap (λ k. k.pr_status) made) ∙ gated))

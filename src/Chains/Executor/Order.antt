-- ===== src/Chains/Executor/Order.antt =====
-- The order in which a chain run visits its handlers.
use agent_analysis.Prelude.{
  ◌==◌, eq_iff, Bool-cases, ℕ, ◌+◌, String, Bool, true, false, ◌≡◌, refl, sym, ◌∙◌, ap, List, [],
  ◌∷◌, ◌++◌, Option, some, if◌then◌else◌, arith, Memᴰ, inl, inr, Option-cases, subst,
  some_injective,
}
use agent_analysis.Platform.{Platform}
use agent_analysis.Schemas.Manifest.{RunManifest}
use agent_analysis.Schemas.Reviews.{ScrumMapping}
use agent_analysis.Schemas.Chain.{
  ChainRequest, task_type_value, HandlerType, HandlerDecision, HandlerResult, ChainExecutionResult,
}
use agent_analysis.Storage.ArtifactStore.{ArtifactStore}
use agent_analysis.Chains.Context.{ChainContext, RepoFile}
use agent_analysis.Chains.Registry.{ChainDefinition, resolve_chain}
use agent_analysis.Handlers.Base.{Handler, HandlerRegistry, find_handler}
use agent_analysis.Chains.Rounds.{
  Run, Round, go, halt, executor_result, next_pr_status, enforce_no_repo_mutation, conclude,
}
use agent_analysis.Chains.Executor.Runs.{execute-runs}
use agent_analysis.Chains.Executor.{
  run_handler, settle, deferred_result, defer, visit, loop, start, finish, run_chain, execute,
}

-- A result that lets the loop go on.
abbrev pub lets_go_on : HandlerResult → Bool
lets_go_on r = elim r.decision [
  | HandlerDecision.go_on ↦ true
  | HandlerDecision.skip_not_applicable ↦ true
  | _ ↦ false
]

-- The results of a walk through a list of handler names: one for each name, in its order, and none
-- after the first result that stops.
pub data IsWalk : List HandlerResult → List String → Type 0 where
  done : IsWalk [] []
  stops :
      (r : HandlerResult) (names : List String)
      → lets_go_on r ≡ false
      → IsWalk (r ∷ []) (r.handler_name ∷ names)
  goes :
      (r : HandlerResult) (rs : List HandlerResult) (names : List String)
      → lets_go_on r ≡ true
      → IsWalk rs names
      → IsWalk (r ∷ rs) (r.handler_name ∷ names)

-- A handler reports under its own name.
pub record IsNamed (h : Handler) : Type 0 where
  pub named :
      (request : ChainRequest) (c c' : ChainContext) (result : HandlerResult)
      → h.handle request c ≡ some (result, c')
      → result.handler_name ≡ h.name

-- The round adds the result `y` to `xs`, and goes on if `y` lets it.
abbrev Adds : List HandlerResult → HandlerResult → Round → Type 0
Adds xs y (go r) = (r.results ≡ xs ++ y ∷ []) × (lets_go_on y ≡ true)
Adds xs y (halt r) = (r.results ≡ xs ++ y ∷ []) × (lets_go_on y ≡ false)

conclude-Adds :
    (d : HandlerDecision) (r : Run) (xs : List HandlerResult) (y : HandlerResult)
    → r.results ≡ xs ++ y ∷ []
    → y.decision ≡ d
    → Adds xs y (conclude d r)
unfolding conclude
conclude-Adds HandlerDecision.fail r xs y e d = ground arith
conclude-Adds _ r xs y e d = ground arith

find_handler-name :
    (name : String) (registry : HandlerRegistry) {h : Handler}
    → find_handler name registry ≡ some h
    → (h.name ≡ name) × Memᴰ h registry
unfolding find_handler
find_handler-name name [] e = cc
find_handler-name name (g ∷ gs) {h} e = elim (Bool-cases (g.name == name)) [
  | inl t ↦
      let same = some_injective (rw (t, if◌then◌else◌) at e) in
      (subst (λ k. k.name ≡ name) same ((eq_iff g.name name).0 t), Memᴰ.head (sym same))
  | inr t ↦
      let (named, m) = find_handler-name name gs (rw (t, if◌then◌else◌) at e) in
      (named, Memᴰ.tail m)
]

append-cons {ℓ} :
    {A : Type ℓ} (xs : List A) (y : A) (zs : List A) → (xs ++ y ∷ []) ++ zs ≡ xs ++ y ∷ zs
append-cons [] y zs = refl
append-cons (x ∷ xs) y zs = ap (λ ws. x ∷ ws) (append-cons xs y zs)

append-nil {ℓ} : {A : Type ℓ} (xs : List A) → xs ≡ xs ++ []
append-nil [] = refl
append-nil (x ∷ xs) = ap (λ ws. x ∷ ws) (append-nil xs)

module _ (os : Platform) where
  settle-Adds :
      (index : ℕ) (name : String) (type : HandlerType) (r : Run) (y : HandlerResult)
      (c : ChainContext) {round : Round}
      → settle os index name type r y c ≡ some round
      → Adds r.results y round
  unfolding settle
  settle-Adds index name type r y c {round} e = elim (Option-cases (next_pr_status y r.pr_status)) [
    | inl f ↦ cc (rw (f, settle) at e)
    | inr (p, f) ↦
        subst (Adds r.results y) (some_injective (rw (f, settle) at e))
          (conclude-Adds y.decision _ r.results y refl refl)
  ]

  run_handler-name :
      (h : Handler) (name : String) (request : ChainRequest) (c : ChainContext)
      {result : HandlerResult} {c' : ChainContext}
      → IsNamed h
      → h.name ≡ name
      → run_handler os h name request c ≡ some (result, c')
      → result.handler_name ≡ name
  unfolding run_handler enforce_no_repo_mutation executor_result
  run_handler-name h name request c m same e = elim (Option-cases (h.handle request c)) [
    | inl f ↦ ground arith
    | inr ((result, c'), f) ↦ ground (arith, m.named request c c' result f)
  ]

  visit-Adds :
      (registry : HandlerRegistry) (index : ℕ) (name : String) (r : Run) {round : Round}
      → ((h : Handler) → Memᴰ h registry → IsNamed h)
      → visit os registry index name r ≡ some round
      → (y : HandlerResult) × (y.handler_name ≡ name) × Adds r.results y round
  unfolding visit defer deferred_result executor_result
  visit-Adds registry index name r {round} are_named e =
      elim (Option-cases (find_handler name registry)) [
        | inl f ↦ (
          deferred_result name,
          refl,
          subst (Adds r.results (deferred_result name)) (some_injective (rw (f, visit) at e))
              (refl, refl),
        )
        | inr (h, f) ↦ elim (Option-cases (run_handler os h name r.context.request r.context)) [
          | inl g ↦ cc (rw (f, g, visit) at e)
          | inr ((y, c), g) ↦
              let (same, m) = find_handler-name name registry f in
              (
                y,
                run_handler-name h name r.context.request r.context (are_named h m) same g,
                settle-Adds index name h.handler_type r y c (rw (f, g, visit) at e),
              )
        ]
      ]

  loop-IsWalk :
      (registry : HandlerRegistry)
      → ((h : Handler) → Memᴰ h registry → IsNamed h)
      → (index : ℕ) (names : List String) (r r' : Run) → loop os registry index names r ≡ some r'
      → (rs : List HandlerResult) × (r'.results ≡ r.results ++ rs) × IsWalk rs names
  unfolding loop
  loop-IsWalk registry are_named index [] r r' e =
      ([], ap (λ q. q.results) (sym (some_injective e)) ∙ append-nil r.results, IsWalk.done)
  loop-IsWalk registry are_named index (name ∷ names) r r' e =
      elim (Option-cases (visit os registry index name r)) [
        | inl f ↦ cc (rw (f, loop) at e)
        | inr (halt q, f) ↦
            let (y, named, adds) = visit-Adds registry index name r are_named f in
            (
              y ∷ [],
              ap (λ p. p.results) (sym (some_injective (rw (f, loop) at e))) ∙ adds.0,
              subst (λ n. IsWalk (y ∷ []) (n ∷ names)) named (IsWalk.stops y names adds.1),
            )
        | inr (go q, f) ↦
            let (y, named, adds) = visit-Adds registry index name r are_named f in
            let (rs, joined, walk) =
              loop-IsWalk registry are_named (index + 1) names q r' (rw (f, loop) at e) in
            (
              y ∷ rs,
              joined ∙ ap (λ xs. xs ++ rs) adds.0 ∙ append-cons r.results y rs,
              subst (λ n. IsWalk (y ∷ rs) (n ∷ names)) named (IsWalk.goes y rs names adds.1 walk),
            )
      ]

  -- If every registered handler reports under its own name, then the results of a run that returns
  -- are those of a walk through the handlers of the chain of its task type: one result for each of
  -- its names in order, up to the first that stops the chain, and none after it.
  pub execute-IsWalk :
      (registry : HandlerRegistry) (request : ChainRequest) (store : ArtifactStore)
      (repo : Option (List RepoFile)) (manifest : Option RunManifest) (scrum : Option ScrumMapping)
      {result : ChainExecutionResult}
      → ((h : Handler) → Memᴰ h registry → IsNamed h)
      → execute os registry request store repo manifest scrum ≡ some result
      → (chain : ChainDefinition) × (resolve_chain (task_type_value request.task_type) ≡ some chain)
        × (result.chain_id ≡ chain.chain_id)
        × IsWalk result.handler_results chain.handler_names
  unfolding finish run_chain start
  execute-IsWalk registry request store repo manifest scrum are_named e =
      let (chain, r, resolved, ran, made) =
        execute-runs os registry request store repo manifest scrum e in
      let (rs, joined, walk) =
        loop-IsWalk registry are_named 0 chain.handler_names
          (start os request store repo manifest scrum) r ran in
      (
        chain,
        resolved,
        ap (λ x. x.chain_id) made,
        subst (λ xs. IsWalk xs chain.handler_names)
            (sym (ap (λ x. x.handler_results) made ∙ joined)) walk,
      )

-- ===== src/Chains/Executor/Verdict.antt =====
-- Who decides the verdict of a chain run.
use agent_analysis.Prelude.{
  ◌==◌, Bool-cases, ℕ, ◌+◌, String, Bool, true, false, ◌≡◌, refl, sym, List, [], ◌∷◌, ◌++◌, Option,
  some, if◌then◌else◌, any, ◌||◌, arith, Memᴰ, inl, inr, Option-cases, subst, some_injective,
  some_injective,
}
use agent_analysis.Platform.{Platform}
use agent_analysis.Schemas.Constants.{Decision}
use agent_analysis.Schemas.Manifest.{RunManifest}
use agent_analysis.Schemas.Reviews.{ScrumMapping}
use agent_analysis.Schemas.Chain.{
  ChainRequest, HandlerType, HandlerDecision, HandlerResult, FinalStatus, ChainExecutionResult,
}
use agent_analysis.Storage.ArtifactStore.{ArtifactStore}
use agent_analysis.Chains.Context.{ChainContext, RepoFile}
use agent_analysis.Handlers.Authority.{can_decide_pass}
use agent_analysis.Handlers.Base.{Handler, HandlerRegistry, find_handler}
use agent_analysis.Chains.Rounds.{
  Run, Round, go, halt, executor_result, status_to_decision, next_pr_status, decide_final_status,
  enforce_no_repo_mutation, write_checkpoint, set_verifier_decision, conclude,
}
use agent_analysis.Chains.Executor.Runs.{execute-runs}
use agent_analysis.Chains.Executor.{
  run_handler, settle, deferred_result, defer, visit, loop, start, finish, run_chain, execute,
}

-- The status of the last verifier among the results that was not skipped, from `current` on.
abbrev pub verdict : Decision → List HandlerResult → Decision
verdict current [] = current
verdict current (r ∷ rs) =
    verdict
      (if can_decide_pass r.handler_type then status_to_decision r.status current else current) rs

abbrev pub is_failing : HandlerResult → Bool
is_failing r = elim r.decision [ HandlerDecision.fail ↦ true | _ ↦ false ]

abbrev pub is_blocking : HandlerResult → Bool
is_blocking r = elim r.decision [ HandlerDecision.blocked ↦ true | _ ↦ false ]

abbrev pub status_of_verdict : Decision → FinalStatus
status_of_verdict Decision.pass = FinalStatus.pass
status_of_verdict Decision.fail = FinalStatus.fail
status_of_verdict Decision.blocked = FinalStatus.blocked
status_of_verdict Decision.pending = FinalStatus.blocked

-- The final status as a function of the handlers' results alone.
abbrev pub outcome : List HandlerResult → FinalStatus
outcome results =
    if any is_failing results
    then FinalStatus.fail
    else if any is_blocking results
    then FinalStatus.blocked
    else status_of_verdict (verdict Decision.pending results)

-- A handler leaves the verdict to the executor and reports under its own type.
pub record IsModest (h : Handler) : Type 0 where
  pub keeps :
      (request : ChainRequest) (c c' : ChainContext) (result : HandlerResult)
      → h.handle request c ≡ some (result, c')
      → (c'.verifier_decision ≡ c.verifier_decision) × (result.handler_type ≡ h.handler_type)

verdict-append :
    (d : Decision) (xs : List HandlerResult) (y : HandlerResult)
    → verdict d (xs ++ y ∷ []) ≡ (
        if can_decide_pass y.handler_type
        then status_to_decision y.status (verdict d xs)
        else verdict d xs)
verdict-append d [] y = refl
verdict-append d (x ∷ xs) y =
    verdict-append (if can_decide_pass x.handler_type then status_to_decision x.status d else d) xs
      y

any-append {ℓ} :
    {A : Type ℓ} (test : A → Bool) (xs : List A) (y : A)
    → any test (xs ++ y ∷ []) ≡ (any test xs || test y)
any-append test [] y = ground arith
any-append test (x ∷ xs) y = ground (arith, any-append test xs y)

-- Between two rounds.
pub record IsOngoing (r : Run) : Type 0 where
  pub running : r.stopped ≡ false
  pub judged : r.context.verifier_decision ≡ verdict Decision.pending r.results
  pub no_failure : any is_failing r.results ≡ false
  pub no_block : any is_blocking r.results ≡ false

-- After the last round.
pub record IsEnded (r : Run) : Type 0 where
  pub judged : r.context.verifier_decision ≡ verdict Decision.pending r.results
  pub decided :
      decide_final_status r.final_status r.stopped r.context.verifier_decision ≡ outcome r.results

abbrev IsSound : Round → Type 0
IsSound (go r) = IsOngoing r
IsSound (halt r) = IsEnded r

IsOngoing-IsEnded : (r : Run) → IsOngoing r → IsEnded r
unfolding decide_final_status
IsOngoing-IsEnded r v = ground arith

-- The last result `y` joins the results `xs` of an ongoing run, and the loop reads its decision.
conclude-IsSound :
    (d : HandlerDecision) (r : Run) (xs : List HandlerResult) (y : HandlerResult)
    → r.results ≡ xs ++ y ∷ []
    → y.decision ≡ d
    → r.stopped ≡ false
    → r.context.verifier_decision ≡ verdict Decision.pending r.results
    → any is_failing xs ≡ false
    → any is_blocking xs ≡ false
    → IsSound (conclude d r)
unfolding conclude decide_final_status
conclude-IsSound HandlerDecision.fail r xs y e d running judged f b =
    ground (arith, any-append is_failing xs y, any-append is_blocking xs y)
conclude-IsSound _ r xs y e d running judged f b =
    ground (arith, any-append is_failing xs y, any-append is_blocking xs y)

pub find_handler→mem :
    (name : String) (registry : HandlerRegistry) {h : Handler}
    → find_handler name registry ≡ some h
    → Memᴰ h registry
unfolding find_handler
find_handler→mem name [] e = cc
find_handler→mem name (g ∷ gs) {h} e = elim (Bool-cases (g.name == name)) [
  | inl t ↦ Memᴰ.head (some_injective (sym (rw (t, if◌then◌else◌) at e)))
  | inr t ↦ Memᴰ.tail (find_handler→mem name gs (rw (t, if◌then◌else◌) at e))
]

module _ (os : Platform) where
  settle-IsSound :
      (index : ℕ) (name : String) (type : HandlerType) (r : Run) (result : HandlerResult)
      (c : ChainContext) {round : Round}
      → IsOngoing r
      → c.verifier_decision ≡ r.context.verifier_decision
      → result.handler_type ≡ type
      → settle os index name type r result c ≡ some round
      → IsSound round
  unfolding settle write_checkpoint set_verifier_decision
  settle-IsSound index name type r result c {round} v same reported h =
      elim (Option-cases (next_pr_status result r.pr_status)) [
        | inl e ↦ cc (rw (e, settle) at h)
        | inr (p, e) ↦ subst IsSound (some_injective (rw (e, settle) at h)) (
            conclude-IsSound result.decision _ r.results result refl refl v.running
              (ground (arith, verdict-append Decision.pending r.results result)) v.no_failure
              v.no_block)
      ]

  defer-IsEnded :
      (index : ℕ) (name : String) (r : Run) → IsOngoing r → IsSound (defer os index name r)
  unfolding defer write_checkpoint deferred_result decide_final_status can_decide_pass
  defer-IsEnded index name r v =
      let last = deferred_result name in
      ground (
        arith,
        any-append is_failing r.results last,
        any-append is_blocking r.results last,
        verdict-append Decision.pending r.results last,
      )

  -- What a registered handler's round starts from.
  pub run_handler-keeps :
      (h : Handler) (name : String) (request : ChainRequest) (c : ChainContext)
      {result : HandlerResult} {c' : ChainContext}
      → IsModest h
      → run_handler os h name request c ≡ some (result, c')
      → (c'.verifier_decision ≡ c.verifier_decision) × (result.handler_type ≡ h.handler_type)
  unfolding run_handler enforce_no_repo_mutation executor_result
  run_handler-keeps h name request c m e = elim (Option-cases (h.handle request c)) [
    | inl f ↦ ground arith
    | inr ((result, c'), f) ↦ ground (arith, m.keeps request c c' result f)
  ]

  pub visit-IsSound :
      (registry : HandlerRegistry) (index : ℕ) (name : String) (r : Run) {round : Round}
      → ((h : Handler) → Memᴰ h registry → IsModest h)
      → IsOngoing r
      → visit os registry index name r ≡ some round
      → IsSound round
  unfolding visit
  visit-IsSound registry index name r {round} modest v e =
      elim (Option-cases (find_handler name registry)) [
        | inl f ↦ subst IsSound (some_injective (rw (f, visit) at e)) (defer-IsEnded index name r v)
        | inr (h, f) ↦ elim (Option-cases (run_handler os h name r.context.request r.context)) [
          | inl g ↦ cc (rw (f, g, visit) at e)
          | inr ((result, c), g) ↦
              let (same, reported) =
                run_handler-keeps h name r.context.request r.context
                  (modest h (find_handler→mem name registry f)) g in
              settle-IsSound index name h.handler_type r result c v same reported
                (rw (f, g, visit) at e)
        ]
      ]

  loop-IsEnded :
      (registry : HandlerRegistry)
      → ((h : Handler) → Memᴰ h registry → IsModest h)
      → (index : ℕ) (names : List String) (r r' : Run) → IsOngoing r
      → loop os registry index names r ≡ some r'
      → IsEnded r'
  unfolding loop
  loop-IsEnded registry modest index [] r r' v e =
      subst IsEnded (some_injective e) (IsOngoing-IsEnded r v)
  loop-IsEnded registry modest index (name ∷ names) r r' v e =
      elim (Option-cases (visit os registry index name r)) [
        | inl f ↦ cc (rw (f, loop) at e)
        | inr (halt q, f) ↦
            subst IsEnded (some_injective (rw (f, loop) at e))
              (visit-IsSound registry index name r modest v f)
        | inr (go q, f) ↦
            loop-IsEnded registry modest (index + 1) names q r'
              (visit-IsSound registry index name r modest v f) (rw (f, loop) at e)
      ]

  pub started :
      (request : ChainRequest) (store : ArtifactStore) (repo : Option (List RepoFile))
      (manifest : Option RunManifest) (scrum : Option ScrumMapping)
      → IsOngoing (start os request store repo manifest scrum)
  unfolding start
  started request store repo manifest scrum = ground arith

  -- If every registered handler leaves the verdict alone and reports under its own type, then the
  -- verifier decision of a run that returns is that of its last verifier that was not skipped, and
  -- its final status is decided by the handlers' results: FAIL or BLOCKED if a handler decided so,
  -- else what the verifiers say, and BLOCKED if none has spoken.
  pub execute-verdict :
      (registry : HandlerRegistry) (request : ChainRequest) (store : ArtifactStore)
      (repo : Option (List RepoFile)) (manifest : Option RunManifest) (scrum : Option ScrumMapping)
      {result : ChainExecutionResult}
      → ((h : Handler) → Memᴰ h registry → IsModest h)
      → execute os registry request store repo manifest scrum ≡ some result
      → (result.final_status ≡ outcome result.handler_results)
        × (result.verifier_decision ≡ verdict Decision.pending result.handler_results)
  execute-verdict registry request store repo manifest scrum modest e =
      let (chain, r, resolved, ran, made) =
        execute-runs os registry request store repo manifest scrum e in
      let ended =
        loop-IsEnded registry modest 0 chain.handler_names _ r
          (started request store repo manifest scrum) (unfold run_chain in ran) in
      rw made (unfold finish in (ended.decided, ended.judged))

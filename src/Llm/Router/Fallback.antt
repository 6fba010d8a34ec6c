-- ===== src/Llm/Router/Fallback.antt =====
-- When the router returns, and what its fallbacks cost.
use agent_analysis.Prelude.{
  ℕ, zero, suc, ◌+◌, ◌≤◌, ◌<◌, String, ◌≡◌, refl, ap, List, some, Memᴰ, arith, Option-cases, inl,
  inr, ◌⊎◌,
}
use agent_analysis.Platform.{Platform}
use agent_analysis.Schemas.Models.{ModelSpec}
use agent_analysis.Llm.Recorder.{LlmResponse, CallStatus, record_call}
use agent_analysis.Llm.Router.{
  Providers, Session, Routing, returned, raised, unfinished, Attempt, fallback_of, attempt,
  mark_fallback, accept, invoke,
}
use agent_analysis.Llm.Router.Selected.{fallback_of-declared}

pub Attempt-cases :
    (a : Attempt)
    → ((response : LlmResponse) × (a ≡ Attempt.responded response))
      ⊎ ((reason : String) × (a ≡ Attempt.declined reason))
Attempt-cases (Attempt.responded response) = inl (response, refl)
Attempt-cases (Attempt.declined reason) = inr (reason, refl)

-- A routing that ends, after at least one call and at most `most` of them.
abbrev pub EndsWithin : ℕ → ℕ → Routing → Type 0
EndsWithin calls most (returned result s) = (calls < s.calls) × (s.calls ≤ calls + most)
EndsWithin calls most raised = Unit
EndsWithin calls most unfinished = ⊥

mark_fallback-EndsWithin :
    (calls most : ℕ) (r : Routing)
    → EndsWithin (calls + 1) most r
    → EndsWithin calls (most + 1) (mark_fallback r)
unfolding mark_fallback
mark_fallback-EndsWithin calls most (returned result s) h = elim (Option-cases result.call) [
  | inl e ↦ rw (e, mark_fallback) (omega arith)
  | inr (call, e) ↦ rw (e, mark_fallback) (omega arith)
]
mark_fallback-EndsWithin calls most raised h = tt
mark_fallback-EndsWithin calls most unfinished h = h

EndsWithin-le :
    (calls few most : ℕ) (r : Routing)
    → few ≤ most
    → EndsWithin calls few r
    → EndsWithin calls most r
EndsWithin-le calls few most (returned result s) le h = omega arith
EndsWithin-le calls few most raised le h = tt
EndsWithin-le calls few most unfinished le h = h

module _ (os : Platform) (p : Providers) (specs : List ModelSpec) where
  -- The fallbacks descend: each has a lower rank than the model that it stands in for.
  abbrev pub Descends : (String → ℕ) → Type 0
  Descends rank =
      (spec next : ModelSpec)
      → Memᴰ spec specs
      → fallback_of specs spec ≡ some next
      → rank next.model_id < rank spec.model_id

  accept-EndsWithin :
      (spec : ModelSpec) (prompt : String) (status : CallStatus) (response : LlmResponse)
      (s : Session) (most : ℕ)
      → EndsWithin s.calls
          (most + 1)
          (accept os p specs spec prompt status response (record s { calls = s.calls + 1 }))
  unfolding accept
  accept-EndsWithin spec prompt status response s most =
      elim (Option-cases (record_call os p.dump spec prompt response status s.recorder)) [
        | inl e ↦ rw (e, accept) tt
        | inr ((call, r), e) ↦ rw (e, accept) (omega arith)
      ]

  -- Where the fallbacks of the declared models descend in a rank, the invocation of one of them ends,
  -- with a result or with an exception of the ledger, whatever the adapters and the limiters do; for a
  -- result it has made at least one call, and at most one more than the rank of the first model.
  pub invoke-EndsWithin :
      (rank : String → ℕ)
      → Descends rank
      → (fuel : ℕ) (spec : ModelSpec) (prompt : String) (status : CallStatus) (s : Session)
      → Memᴰ spec specs
      → rank spec.model_id < fuel
      → EndsWithin s.calls (rank spec.model_id + 1) (invoke os p specs fuel spec prompt status s)
  unfolding invoke
  invoke-EndsWithin rank down zero spec prompt status s m lt = absurd (omega arith)
  invoke-EndsWithin rank down (suc fuel) spec prompt status s m lt =
      let s' = record s { calls = s.calls + 1 } in
      elim (Attempt-cases (attempt p spec prompt s.calls)) [
        | inl (response, e) ↦
            rw (e, invoke) (accept-EndsWithin spec prompt status response s (rank spec.model_id))
        | inr (reason, e) ↦ elim (Option-cases (fallback_of specs spec)) [
          | inl f ↦ rw (e, f, invoke) (omega arith)
          | inr (next, f) ↦
              let less = down spec next m f in
              rw (e, f, invoke)
                (mark_fallback-EndsWithin s.calls (rank spec.model_id)
                  (invoke os p specs fuel next prompt CallStatus.fallback_used s')
                  (EndsWithin-le (s.calls + 1) (rank next.model_id + 1) (rank spec.model_id) _
                    (omega arith)
                    (invoke-EndsWithin rank down fuel next prompt CallStatus.fallback_used s'
                      (fallback_of-declared specs spec f) (omega arith))))
        ]
      ]

  -- Each model of a set declines every call, and falls back to a model of the set.
  pub record IsTrapped (prompt : String) (among : ModelSpec → Type 0) : Type 0 where
    pub declines :
        (spec : ModelSpec)
        → among spec
        → (n : ℕ) → (reason : String) × (attempt p spec prompt n ≡ Attempt.declined reason)
    pub falls_back :
        (spec : ModelSpec)
        → among spec
        → (next : ModelSpec) × (fallback_of specs spec ≡ some next) × among next

  -- Where each model of a set declines its calls and falls back to a model of the set, as along a cycle
  -- of fallbacks whose adapters all fail, the invocation of one of them ends within no fuel.
  pub invoke-unfinished :
      (prompt : String) (among : ModelSpec → Type 0)
      → IsTrapped prompt among
      → (fuel : ℕ) (spec : ModelSpec) (status : CallStatus) (s : Session) → among spec
      → invoke os p specs fuel spec prompt status s ≡ unfinished
  unfolding invoke mark_fallback
  invoke-unfinished prompt among trap zero spec status s m = refl
  invoke-unfinished prompt among trap (suc fuel) spec status s m =
      let (reason, e) = trap.declines spec m s.calls in
      let (next, f, n) = trap.falls_back spec m in
      rw (e, f, invoke)
        (ap mark_fallback (
          invoke-unfinished prompt among trap fuel next CallStatus.fallback_used
            (record s { calls = s.calls + 1 }) n))

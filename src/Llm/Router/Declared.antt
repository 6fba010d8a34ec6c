-- ===== src/Llm/Router/Declared.antt =====
-- Which models the router can call.
use agent_analysis.Prelude.{
  ℕ, zero, suc, ◌+◌, String, true, false, not, ◌≡◌, refl, sym, ◌∙◌, subst, List, Option, none, some,
  some_injective, Memᴰ, arith, Option-cases, Bool-cases, inl, inr, ◌⊎◌, if◌then◌else◌, ◌==◌, ◌&&◌,
  member, eq_iff,
}
use agent_analysis.Platform.{Platform}
use agent_analysis.Schemas.Models.{ModelRole, ModelSpec}
use agent_analysis.Llm.Recorder.{
  LlmResponse, CallStatus, LlmInvocationRecord, Recorder, record_call,
}
use agent_analysis.Llm.Router.{
  Providers, RouterResult, Session, Routing, returned, raised, unfinished, select_role, fallback_of,
  attempt, mark_fallback, throttled_result, accept, invoke, invoke_role,
}
use agent_analysis.Llm.Router.Selected.{select_role-declared, fallback_of-declared}
use agent_analysis.Llm.Router.Fallback.{Attempt-cases}

-- No permission is asked for, or the model has it; an empty name asks for none.
abbrev pub Permits : Option String → ModelSpec → Type 0
Permits none spec = Unit
Permits (some name) spec = (name ≡ "") ⊎ (member name spec.permissions ≡ true)

permits :
    (name : String) (spec : ModelSpec)
    → (not (name == "") && not (member name spec.permissions)) ≡ false
    → Permits (some name) spec
permits name spec t = elim (Bool-cases (name == "")) [
  | inl e ↦ inl ((eq_iff name "").0 e)
  | inr e ↦ elim (Bool-cases (member name spec.permissions)) [
    | inl m ↦ inr m
    | inr m ↦ cc (rw (e, m) at t)
  ]
]

module _ (os : Platform) (p : Providers) (specs : List ModelSpec) where
  -- A recorded call is of a declared model, and its narrative is no evidence.
  abbrev pub IsDeclared : Routing → Type 0
  IsDeclared (returned result s) =
      (result.call ≡ none)
      ⊎ ((call : LlmInvocationRecord) × (spec : ModelSpec) × (result.call ≡ some call)
          × Memᴰ spec specs
          × (call.model_id ≡ spec.model_id)
          × (call.used_as_evidence ≡ false))
  IsDeclared raised = Unit
  IsDeclared unfinished = Unit

  record_call-model :
      (spec : ModelSpec) (prompt : String) (response : LlmResponse) (status : CallStatus)
      (r : Recorder) {call : LlmInvocationRecord} {r' : Recorder}
      → record_call os p.dump spec prompt response status r ≡ some (call, r')
      → (call.model_id ≡ spec.model_id) × (call.used_as_evidence ≡ false)
  unfolding record_call
  record_call-model spec prompt response status r e = ground arith

  accept-IsDeclared :
      (spec : ModelSpec) (prompt : String) (status : CallStatus) (response : LlmResponse)
      (s : Session)
      → Memᴰ spec specs
      → IsDeclared (accept os p specs spec prompt status response s)
  unfolding accept
  accept-IsDeclared spec prompt status response s m =
      elim (Option-cases (record_call os p.dump spec prompt response status s.recorder)) [
        | inl e ↦ rw (e, accept) tt
        | inr ((call, r), e) ↦
            let (model, narrative) = record_call-model spec prompt response status s.recorder e in
            rw (e, accept) (inr (call, spec, refl, m, model, narrative))
      ]

  mark_fallback-IsDeclared : (r : Routing) → IsDeclared r → IsDeclared (mark_fallback r)
  unfolding mark_fallback
  mark_fallback-IsDeclared (returned result s) h = elim (Option-cases result.call) [
    | inl e ↦ rw (e, mark_fallback) h
    | inr (call, e) ↦ rw (e, mark_fallback) h
  ]
  mark_fallback-IsDeclared raised h = tt
  mark_fallback-IsDeclared unfinished h = tt

  invoke-IsDeclared :
      (fuel : ℕ) (spec : ModelSpec) (prompt : String) (status : CallStatus) (s : Session)
      → Memᴰ spec specs
      → IsDeclared (invoke os p specs fuel spec prompt status s)
  unfolding invoke throttled_result
  invoke-IsDeclared zero spec prompt status s m = tt
  invoke-IsDeclared (suc fuel) spec prompt status s m =
      let s' = record s { calls = s.calls + 1 } in
      elim (Attempt-cases (attempt p spec prompt s.calls)) [
        | inl (response, e) ↦ rw (e, invoke) (accept-IsDeclared spec prompt status response s' m)
        | inr (reason, e) ↦ elim (Option-cases (fallback_of specs spec)) [
          | inl f ↦ rw (e, f, invoke) (inl refl)
          | inr (next, f) ↦
              rw (e, f, invoke)
                (mark_fallback-IsDeclared
                  (invoke os p specs fuel next prompt CallStatus.fallback_used s')
                  (invoke-IsDeclared fuel next prompt CallStatus.fallback_used s'
                    (fallback_of-declared specs spec f)))
        ]
      ]

  invoke_role-steps :
      (fuel : ℕ) (role : ModelRole) (prompt : String) (permission : Option String) (s : Session)
      (spec : ModelSpec) {result : RouterResult} {s' : Session} {call : LlmInvocationRecord}
      → select_role role specs ≡ some spec
      → invoke_role os p specs fuel role prompt permission s ≡ returned result s'
      → result.call ≡ some call
      → (invoke os p specs fuel spec prompt CallStatus.ok s ≡ returned result s')
        × Permits permission spec
  unfolding invoke_role
  invoke_role-steps fuel role prompt none s spec g e f = (rw (g, invoke_role) at e, tt)
  invoke_role-steps fuel role prompt (some name) s spec g e f =
      let empty = eq_iff name "" in
      elim (Bool-cases (not (name == "") && not (member name spec.permissions))) [
        | inl t ↦ let made = rw (g, t, invoke_role, if◌then◌else◌) at e in absurd (ground arith)
        | inr t ↦ (rw (g, t, invoke_role, if◌then◌else◌) at e, permits name spec t)
      ]

  -- What a recorded call is: of a declared model, with a narrative that is no evidence, and of a role
  -- whose model has the permission that was asked for.
  pub record IsControlled (role : ModelRole) (permission : Option String)
      (call : LlmInvocationRecord) : Type 0 where
    pub model : ModelSpec
    pub declared : Memᴰ model specs
    pub named : call.model_id ≡ model.model_id
    pub narrative : call.used_as_evidence ≡ false
    pub first : ModelSpec
    pub selected : select_role role specs ≡ some first
    pub permitted : Permits permission first

  declared_call :
      (r : Routing) {result : RouterResult} {s : Session} {call : LlmInvocationRecord}
      → IsDeclared r
      → r ≡ returned result s
      → result.call ≡ some call
      → (spec : ModelSpec) × Memᴰ spec specs
        × (call.model_id ≡ spec.model_id)
        × (call.used_as_evidence ≡ false)
  declared_call r {result} {s} {call} d e f = elim (subst IsDeclared e d) [
    | inl n ↦ cc (n, f)
    | inr (made, spec, g, m, id, narrative) ↦
        let same : made ≡ call = some_injective (sym g ∙ f) in
        (
          spec,
          m,
          subst (λ (k : LlmInvocationRecord). k.model_id ≡ spec.model_id) same id,
          subst (λ (k : LlmInvocationRecord). k.used_as_evidence ≡ false) same narrative,
        )
  ]

  -- Whatever the adapters and the limiters answer, a call that the router records for a role is of a
  -- declared model, its narrative is no evidence, and where a permission was asked for the model of the
  -- role has it; the model that answers may be a fallback.
  pub invoke_role-IsControlled :
      (fuel : ℕ) (role : ModelRole) (prompt : String) (permission : Option String) (s : Session)
      {result : RouterResult} {s' : Session} {call : LlmInvocationRecord}
      → invoke_role os p specs fuel role prompt permission s ≡ returned result s'
      → result.call ≡ some call
      → IsControlled role permission call
  unfolding invoke_role
  invoke_role-IsControlled fuel role prompt permission s e f =
      elim (Option-cases (select_role role specs)) [
        | inl g ↦ ground arith
        | inr (spec, g) ↦
            let (ran, allowed) = invoke_role-steps fuel role prompt permission s spec g e f in
            let (model, m, id, narrative) =
              declared_call (invoke os p specs fuel spec prompt CallStatus.ok s)
                (invoke-IsDeclared fuel spec prompt CallStatus.ok s
                  (select_role-declared role specs g))
                ran f in
            record {
              model = model;
              declared = m;
              named = id;
              narrative = narrative;
              first = spec;
              selected = g;
              permitted = allowed;
            }
      ]

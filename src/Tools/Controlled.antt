-- ===== src/Tools/Controlled.antt =====
-- Which tools run, and what their success stands on.
use agent_analysis.Prelude.{
  pos, String, true, false, ◌≡◌, ◌≢◌, refl, sym, ap, ◌∙◌, subst, ◌↔◌, List, [], ◌∷◌, some, member,
  All, arith, Option-cases, Bool-cases, inl, inr, some_injective, eq_iff, ◌⊎◌,
}
use agent_analysis.Platform.{Platform}
use agent_analysis.Schemas.Constants.{RunType}
use agent_analysis.Chains.Context.{ChainContext, record_artifact}
use agent_analysis.Tools.{
  Outcome, output, raised, not_text, Tool, ToolRegistry, forbidden_tool_names, put, register_tool,
  register_all, get_tool, PolicyDecision, decide, ToolStatus, ToolResult, run_allowed, run_tool,
  without_artifact, tool_request,
}

abbrev Outcome-cases :
    (o : Outcome)
    → ((s : String) × (o ≡ Outcome.output s))
      ⊎ (((s : String) × (o ≡ Outcome.raised s)) ⊎ (o ≡ Outcome.not_text))
Outcome-cases (output s) = inl (s, refl)
Outcome-cases (raised s) = inr (inl (s, refl))
Outcome-cases not_text = inr (inr refl)

abbrev pub IsPermitted : Tool → Type 0
IsPermitted t = member t.name forbidden_tool_names ≡ false

put-IsPermitted :
    (t : Tool) (tools : ToolRegistry)
    → IsPermitted t
    → All IsPermitted tools
    → All IsPermitted (put t tools)
unfolding put
put-IsPermitted t [] p h = (p, h)
put-IsPermitted t (u ∷ us) p h = ground (arith, put-IsPermitted t us p h.1)

-- However a registry is built, no tool in it has a forbidden name.
pub register_all-IsPermitted :
    (ts : List Tool) (tools : ToolRegistry) {built : ToolRegistry}
    → All IsPermitted tools
    → register_all ts tools ≡ some built
    → All IsPermitted built
unfolding register_all register_tool
register_all-IsPermitted [] tools h e = subst (All IsPermitted) (some_injective e) h
register_all-IsPermitted (t ∷ ts) tools h e =
    elim (Bool-cases (member t.name forbidden_tool_names)) [
      | inl f ↦ cc (rw (f, register_all) at e)
      | inr f ↦
          register_all-IsPermitted ts (put t tools) (put-IsPermitted t tools f h)
            (rw (f, register_all, register_tool) at e)
    ]

-- The policy allows a tool exactly when its name is not forbidden, it is registered, and it does not
-- mutate unless the run is an implementation.
pub decide-allowed_iff :
    (tools : ToolRegistry) (name : String) (run_type : RunType)
    → ((decide tools name run_type).0 ≡ PolicyDecision.allowed) ↔ (
        (member name forbidden_tool_names ≡ false)
        × ((t : Tool) × (get_tool name tools ≡ some t)
            × (t.mutating ≡ true → run_type ≡ RunType.implementation)))
unfolding decide
decide-allowed_iff tools name run_type = elim (Option-cases (get_tool name tools)) [
  | inl e ↦ (λ h. ground arith, λ (f, (t, g, m)). ground arith)
  | inr (t, e) ↦ (λ h. (ground arith, (t, e, ground arith)), λ (f, (u, g, m)). ground arith)
]

module _ (os : Platform) where
  run_allowed-hashed :
      (t : Tool) (name repo_path : String) (c : ChainContext) {result : ToolResult}
      {c' : ChainContext}
      → run_allowed os t name repo_path c ≡ some (result, c')
      → (result.policy_decision ≡ PolicyDecision.allowed)
        × ((result.status ≡ ToolStatus.failed)
            ⊎ ((result.status ≡ ToolStatus.ok) × (result.artifact_hash ≢ "")))
  unfolding run_allowed without_artifact
  run_allowed-hashed t name repo_path c {result} e = elim (Outcome-cases (t.run repo_path)) [
    | inl (printed, f) ↦ elim (Option-cases (record_artifact os (tool_request name printed) c)) [
      | inl g ↦ cc (rw (f, g, run_allowed) at e)
      | inr ((a, d), g) ↦ let hashed = eq_iff a.hash "" in ground arith
    ]
    | inr (inl (why, f)) ↦ ground arith
    | inr (inr f) ↦ ground arith
  ]

  -- How a tool's run ends: the policy refuses it, and nothing is done; or it is allowed, and it fails
  -- or leaves an artifact with a hash.
  abbrev pub IsControlledRun : PolicyDecision → ChainContext → ToolResult → ChainContext → Type 0
  IsControlledRun decision c result c' =
      ((decision ≢ PolicyDecision.allowed) × (result.status ≡ ToolStatus.blocked) × (c' ≡ c))
      ⊎ ((decision ≡ PolicyDecision.allowed)
          × ((result.status ≡ ToolStatus.failed)
              ⊎ ((result.status ≡ ToolStatus.ok) × (result.artifact_hash ≢ ""))))

  -- A tool's run reports the policy's decision. Where the tool is not allowed it is blocked and leaves
  -- the context as it is; where it is allowed it fails, or succeeds with an artifact that has a hash.
  pub run_tool-controlled :
      (tools : ToolRegistry) (name : String) (run_type : RunType) (repo_path : String)
      (c : ChainContext) {result : ToolResult} {c' : ChainContext}
      → run_tool os tools name run_type repo_path c ≡ some (result, c')
      → (result.policy_decision ≡ (decide tools name run_type).0)
        × IsControlledRun (decide tools name run_type).0 c result c'
  unfolding run_tool without_artifact
  run_tool-controlled tools name run_type repo_path c {result} {c'} e =
      by_decision (decide tools name run_type).0 (decide tools name run_type).1 refl
    where
      refused :
          (decide tools name run_type).0 ≢ PolicyDecision.allowed
          → ◌≡◌ {A = ToolResult × ChainContext}
              (
                without_artifact name ToolStatus.blocked
                    (decide tools name run_type).0
                    ""
                    (pos 0)
                    (decide tools name run_type).1,
                c,
              )
              (result, c')
          → (result.policy_decision ≡ (decide tools name run_type).0)
            × IsControlledRun (decide tools name run_type).0 c result c'
      refused n made = (
        ap (λ p. p.0.policy_decision) (sym made),
        inl (n, ap (λ p. p.0.status) (sym made), ap (λ p. p.1) (sym made)),
      )

      by_decision :
          (d : PolicyDecision) (reason : String)
          → decide tools name run_type ≡ (d, reason)
          → (result.policy_decision ≡ (decide tools name run_type).0)
            × IsControlledRun (decide tools name run_type).0 c result c'
      by_decision PolicyDecision.allowed reason q = elim (Option-cases (get_tool name tools)) [
        | inl f ↦ cc (rw (q, f, run_tool) at e)
        | inr (t, f) ↦
            let (same, ended) = run_allowed-hashed t name repo_path c (rw (q, f, run_tool) at e) in
            rw q (same, inr (refl, ended))
      ]
      by_decision _ reason q =
          refused (λ z. let w = sym (ap (λ p. p.0) q) ∙ z in cc)
            (some_injective (rw (q, run_tool) at e))

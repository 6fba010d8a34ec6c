-- ===== src/Gates/Tests/Admits.antt =====
-- What the test gate admits.
use agent_analysis.Prelude.{
  Bool, true, false, eq_iff, ◌≡◌, ◌≢◌, ◌↔◌, ◌⊎◌, List, [], ◌∷◌, arith, All, iff_trans, both, Option,
  some, none, ℤ, is_zero, Memᴰ, any, any→mem, mem→any, gather-eq-nil, append-eq-nil, collect, not,
  ◌&&◌, Bool-cases, inl, inr, refl, mem→All, All→mem,
}
use agent_analysis.Schemas.Constants.{RunType, is_implementation}
use agent_analysis.Schemas.GateResult.{passed, passed-of}
use agent_analysis.Gates.Tests.{TestOutcome, failed_with, outcome_reasons, test_gate}

-- A command that ran, was captured in full, and exited with 0.
pub record IsVerified (o : TestOutcome) : Type 0 where
  pub ran : o.ran ≡ true
  pub captured : o.output_path ≢ ""
  pub complete : o.truncated ≡ false
  pub exited : (c : ℤ) × (o.exit_code ≡ some c) × (is_zero c ≡ true)

-- A command that is skipped with approval, or verified.
abbrev pub IsSettled : TestOutcome → Type 0
IsSettled o = (o.skipped ≡ true) × (o.skip_approved ≡ true) ⊎ (o.skipped ≡ false) × IsVerified o

exit_iff :
    (code : Option ℤ)
    → ((code ≢ none) × (failed_with code ≡ false))
      ↔ ((c : ℤ) × (code ≡ some c) × (is_zero c ≡ true))
unfolding failed_with
exit_iff none = (λ h. absurd (h.0 refl), λ h. cc (h.1))
exit_iff (some c) = (λ h. (c, refl, ground arith), λ h. (λ e. cc, ground arith))

run_iff :
    (o : TestOutcome)
    → o.skipped ≡ false
    → o.ran ≡ true
    → (outcome_reasons o ≡ []) ↔ (
        (o.output_path ≢ "")
        × (o.truncated ≡ false)
        × (o.exit_code ≢ none)
        × (failed_with o.exit_code ≡ false))
unfolding outcome_reasons
run_iff o s r = let path = eq_iff o.output_path "" in (λ h. ground arith, λ h. ground arith)

outcome_iff : (o : TestOutcome) → (outcome_reasons o ≡ []) ↔ IsSettled o
unfolding outcome_reasons
outcome_iff o = elim (Bool-cases o.skipped) [
  | inl s ↦ (λ h. inl (s, ground arith), λ h. ground arith)
  | inr s ↦ elim (Bool-cases o.ran) [
    | inl r ↦ (
      λ h.
          let p = (run_iff o s r).0 h in
          inr (
            s,
            record {
              ran = r;
              captured = p.0;
              complete = p.1;
              exited = (exit_iff o.exit_code).0 (p.2, p.3);
            },
          ),
      λ h. elim h [
        | inl k ↦ cc (k.0)
        | inr k ↦
            let e = (exit_iff o.exit_code).1 k.1.exited in
            (run_iff o s r).1 (k.1.captured, k.1.complete, e.0, e.1)
      ],
    )
    | inr r ↦ (λ h. ground arith, λ h. elim h [ inl k ↦ cc (k.0) | inr k ↦ cc (k.1.ran) ])
  ]
]

-- Some command ran, where that is required.
covered :
    (outcomes : List TestOutcome) (applicable : Bool) (run_type : RunType)
    → (collect (
          (
            applicable && is_implementation run_type && not (any (λ o. o.ran) outcomes),
            "implementation mode attempts PASS without tests where applicable",
          )
          ∷ [])
        ≡ [])
      ↔ (applicable ≡ true
          → run_type ≡ RunType.implementation
          → (o : TestOutcome) × Memᴰ o outcomes × (o.ran ≡ true))
covered outcomes false run_type = (λ h t. cc, λ h. refl)
covered outcomes true RunType.read_only_analysis = (λ h t r. cc, λ h. refl)
covered outcomes true RunType.implementation = (
  λ h t r. any→mem (λ o. o.ran) outcomes (ground arith),
  λ h.
      let (o, m, e) = h refl refl in
      let a = mem→any (λ (p : TestOutcome). p.ran) o outcomes m e in ground arith,
)

-- The test gate passes exactly when every outcome is settled, and some command ran where an
-- implementation run has applicable tests.
pub test_gate-passed_iff :
    (outcomes : List TestOutcome) (run_type : RunType) (tests_applicable : Bool)
    → (passed (test_gate outcomes run_type tests_applicable) ≡ true) ↔ (
        (tests_applicable ≡ true
          → run_type ≡ RunType.implementation
          → (o : TestOutcome) × Memᴰ o outcomes × (o.ran ≡ true))
        × ((o : TestOutcome) → Memᴰ o outcomes → IsSettled o))
unfolding test_gate
test_gate-passed_iff outcomes run_type tests_applicable = iff_trans (passed-of _ _) (
    iff_trans (append-eq-nil _ _) (
      both (covered outcomes tests_applicable run_type)
        (iff_trans (gather-eq-nil _ outcomes) each)))
  where
    each :
        All (λ o. outcome_reasons o ≡ []) outcomes
        ↔ ((o : TestOutcome) → Memᴰ o outcomes → IsSettled o)
    each = (
      λ h o m. (outcome_iff o).0 (All→mem _ o outcomes h m),
      λ h. mem→All _ outcomes (λ o m. (outcome_iff o).1 (h o m)),
    )

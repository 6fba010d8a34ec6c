-- ===== src/Handlers/Outcomes.antt =====
-- What the outcomes of a test run say of its logs.
use agent_analysis.Prelude.{
  String, Bool, true, false, ◌≡◌, ◌≢◌, ◌↔◌, refl, sym, ap, subst, List, [], ◌∷◌, some,
  some_injective, Option-cases, Bool-cases, inl, inr, ◌⊎◌, ◌>>=◌, if◌then◌else◌, ℤ, Option, none,
}
use mathlib.Core.Option
use agent_analysis.Platform.{Platform}
use agent_analysis.Schemas.Json.{
  Value, Items, Fields, null, bool, int, float, text, array, object, nil, cons, get_or,
}
use agent_analysis.Schemas.Reading.{as_object, as_text, exit_code_of, equals_zero, all_zero}
use agent_analysis.Gates.Tests.{TestOutcome}
use agent_analysis.Handlers.Host.{Host}
use agent_analysis.Handlers.Reproduction.{exit_field, outcome_of, outcomes_of}

-- Each log is a dict whose exit code is zero.
abbrev pub AllZero : Items → Type 0
AllZero nil = Unit
AllZero (cons v vs) =
    ((code : Value) × (exit_code_of v ≡ some code) × (equals_zero code ≡ true)) × AllZero vs

pub all_zero_iff : (logs : Items) {b : Bool} → all_zero logs ≡ some b → (b ≡ true) ↔ AllZero logs
unfolding all_zero
all_zero_iff nil e = (λ t. tt, λ h. sym (some_injective e))
all_zero_iff (cons v vs) {b} e = elim (Option-cases (exit_code_of v)) [
  | inl f ↦ cc (rw (f, ◌>>=◌) at e)
  | inr (code, f) ↦ elim (Bool-cases (equals_zero code)) [
    | inl g ↦
        let rest = all_zero_iff vs (rw (f, ◌>>=◌, g, if◌then◌else◌) at e) in
        (λ t. ((code, f, g), rest.0 t), λ h. rest.1 h.1)
    | inr g ↦
        let is_false = some_injective (rw (f, ◌>>=◌, g, if◌then◌else◌) at e) in
        (λ t. cc (is_false, t), λ h. let (code', f', g') = h.0 in cc (f, f', g, g'))
  ]
]

-- The exit code that an outcome has of the field of its log: none of `null`, else what pydantic reads.
abbrev pub HasExit : Host → Value → Option ℤ → Type 0
HasExit host v code =
    ((v ≡ null) × (code ≡ none))
    ⊎ ((v ≢ null) × (n : ℤ) × (host.as_int v ≡ some n) × (code ≡ some n))

-- The outcome of one log, whose exit code is zero where the log has no such field.
abbrev pub IsOutcome : Host → String → Value → TestOutcome → Type 0
IsOutcome host path log o =
    (fs : Fields) × (as_object log ≡ some fs)
    × (o.ran ≡ true)
    × (o.output_path ≡ path)
    × (o.skipped ≡ false)
    × HasExit host (get_or "exit_code" (int (ℤ.pos 0)) fs) o.exit_code

-- One outcome for each log, in order.
abbrev pub AreOutcomes : Host → String → Items → List TestOutcome → Type 0
AreOutcomes host path nil [] = Unit
AreOutcomes host path (cons log logs) (o ∷ os) =
    IsOutcome host path log o × AreOutcomes host path logs os
AreOutcomes host path _ _ = ⊥

exit_of_int :
    (host : Host) (v : Value) {code : Option ℤ}
    → v ≢ null
    → Option.map some (host.as_int v) ≡ some code
    → HasExit host v code
exit_of_int host v some_value e = elim (Option-cases (host.as_int v)) [
  | inl f ↦ cc (rw (f, Option.map) at e)
  | inr (n, f) ↦ inr (some_value, n, f, sym (some_injective (rw (f, Option.map) at e)))
]

exit_field-HasExit :
    (os : Platform) (host : Host) (v : Value) {code : Option ℤ}
    → exit_field os host v ≡ some code
    → HasExit host v code
unfolding exit_field
exit_field-HasExit os host null e = inl (refl, sym (some_injective e))
exit_field-HasExit os host (bool b) e = exit_of_int host (bool b) (λ n. cc n) e
exit_field-HasExit os host (int n) e = exit_of_int host (int n) (λ n. cc n) e
exit_field-HasExit os host (float f) e = exit_of_int host (float f) (λ n. cc n) e
exit_field-HasExit os host (text s) e = exit_of_int host (text s) (λ n. cc n) e
exit_field-HasExit os host (array vs) e = exit_of_int host (array vs) (λ n. cc n) e
exit_field-HasExit os host (object fs) e = exit_of_int host (object fs) (λ n. cc n) e

outcome_of-IsOutcome :
    (os : Platform) (host : Host) (command path : String) (log : Value) {o : TestOutcome}
    → outcome_of os host command path log ≡ some o
    → IsOutcome host path log o
unfolding outcome_of
outcome_of-IsOutcome os host command path log {o} e = elim (Option-cases (as_object log)) [
  | inl f ↦ cc (rw (f, ◌>>=◌) at e)
  | inr (fs, f) ↦ elim (Option-cases (as_text (get_or "command" (text command) fs))) [
    | inl g ↦ cc (rw (f, g, ◌>>=◌) at e)
    | inr (name, g) ↦
        elim (Option-cases (exit_field os host (get_or "exit_code" (int (ℤ.pos 0)) fs))) [
          | inl h ↦ cc (rw (f, g, h, ◌>>=◌) at e)
          | inr (code, h) ↦
              let made = some_injective (rw (f, g, h, ◌>>=◌) at e) in
              (
                fs,
                f,
                sym (ap (λ (x : TestOutcome). x.ran) made),
                sym (ap (λ (x : TestOutcome). x.output_path) made),
                sym (ap (λ (x : TestOutcome). x.skipped) made),
                subst (HasExit host (get_or "exit_code" (int (ℤ.pos 0)) fs))
                    (ap (λ (x : TestOutcome). x.exit_code) made) (exit_field-HasExit os host _ h),
              )
        ]
  ]
]

pub outcomes_of-AreOutcomes :
    (os : Platform) (host : Host) (command path : String) (logs : Items)
    {outcomes : List TestOutcome}
    → outcomes_of os host command path logs ≡ some outcomes
    → AreOutcomes host path logs outcomes
unfolding outcomes_of
outcomes_of-AreOutcomes os host command path nil e =
    subst (λ outs. AreOutcomes host path nil outs) (some_injective e) tt
outcomes_of-AreOutcomes os host command path (cons log logs) e =
    elim (Option-cases (outcome_of os host command path log)) [
      | inl f ↦ cc (rw (f, ◌>>=◌) at e)
      | inr (o, f) ↦ elim (Option-cases (outcomes_of os host command path logs)) [
        | inl g ↦ cc (rw (f, ◌>>=◌, g) at e)
        | inr (rest, g) ↦
            subst (λ outs. AreOutcomes host path (cons log logs) outs)
              (some_injective (rw (f, ◌>>=◌, g) at e))
              (
                outcome_of-IsOutcome os host command path log f,
                outcomes_of-AreOutcomes os host command path logs g,
              )
      ]
    ]

-- ===== src/Gates/Tests.antt =====
-- Captured command outcomes (backend/app/gates/test_gate.py).
pub mod Admits
use agent_analysis.Prelude.{
  String, Bool, false, not, ◌&&◌, ◌==◌, List, [], ◌∷◌, ◌++◌, Option, none, some, if◌then◌else◌, any,
  is_none, collect, gather, ℤ, is_zero, show_int, ◌+s◌,
}
use agent_analysis.Schemas.Constants.{RunType, is_implementation}
use agent_analysis.Schemas.GateResult.{GateResult, of}

pub record TestOutcome : Type 0 where
  pub command : String
  pub ran : Bool
  pub exit_code : Option ℤ
  pub output_path : String
  pub truncated : Bool
  pub skipped : Bool
  pub skip_approved : Bool

-- `o.command or o.output_path or "<command>"`
unfoldable pub outcome_label : TestOutcome → String
outcome_label o =
    if not (o.command == "")
    then o.command
    else if not (o.output_path == "")
    then o.output_path
    else "<command>"

-- `exit_code is not None and exit_code != 0`
unfoldable pub failed_with : Option ℤ → Bool
unfolding is_zero
failed_with none = false
failed_with (some code) = not (is_zero code)

show_code : Option ℤ → String
show_code none = "None"
show_code (some code) = show_int code

-- The body of the loop; each `continue` is a branch.
unfoldable pub outcome_reasons : TestOutcome → List String
unfolding outcome_label show_code
outcome_reasons o =
    let label = outcome_label o in
    if o.skipped && not o.skip_approved
    then ("required test skipped without approved reason: " +s label) ∷ []
    else if o.skipped
    then []
    else if not o.ran
    then ("test result claimed without running: " +s label) ∷ []
    else collect (
        (is_none o.exit_code, "exit code missing: " +s label)
        ∷ (o.output_path == "", "test result claimed without output: " +s label)
        ∷ (o.truncated, "output truncated so PASS/FAIL cannot be verified: " +s label)
        ∷ (
          failed_with o.exit_code,
          "command failed with exit code " +s show_code o.exit_code +s ": " +s label,
        )
        ∷ [])

unfoldable pub test_gate : List TestOutcome → RunType → Bool → GateResult
test_gate outcomes run_type tests_applicable = of "test_gate" (
    collect (
      (
        tests_applicable && is_implementation run_type && not (any (λ o. o.ran) outcomes),
        "implementation mode attempts PASS without tests where applicable",
      )
      ∷ [])
    ++ gather outcome_reasons outcomes)

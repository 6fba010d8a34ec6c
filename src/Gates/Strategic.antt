-- ===== src/Gates/Strategic.antt =====
-- Controlled complexity (backend/app/gates/strategic_programming_gate.py).
pub mod Admits
use agent_analysis.Prelude.{
  String, Bool, false, not, ◌&&◌, ◌==◌, List, [], ◌∷◌, Option, none, some, if◌then◌else◌, ltb,
  length, collect, codes, lower, strip, same_codes, has_text,
}
use agent_analysis.Schemas.GateResult.{GateResult, of}
use agent_analysis.Schemas.Reviews.{DesignOption, StrategicProgramming}

-- `next((o for o in options if o.option_id == selected), None)`
unfoldable pub find_option : String → List DesignOption → Option DesignOption
find_option selected [] = none
find_option selected (o ∷ os) = if o.option_id == selected then some o else find_option selected os

-- The three tests on the option that was found.
unfoldable pub is_justified : Option DesignOption → Bool
unfolding lower strip same_codes has_text codes
is_justified none = false
is_justified (some o) =
    same_codes (lower (strip o.rejected_or_selected)) (codes "selected")
    && not (not (has_text o.tradeoffs) && not (has_text o.summary))

unfoldable pub selection_justified : StrategicProgramming → Bool
unfolding find_option is_justified strip
selection_justified review =
    let selected = strip review.selected_design in
    not (selected == "") && is_justified (find_option selected review.design_options)

unfoldable pub strategic_checks : StrategicProgramming → List (Bool × String)
strategic_checks r =
    (not (has_text r.responsibility_owner), "responsibility owner unclear")
    ∷ (ltb (length r.design_options) 2, "only one design option considered")
    ∷ (not (selection_justified r), "selected design not justified")
    ∷ (r.introduces_shallow_passthrough, "shallow pass-through layers introduced")
    ∷ (r.complexity_leaks_into_callers, "complexity leaks into callers")
    ∷ (r.error_handling_scattered, "error handling scattered")
    ∷ (r.invalid_states_unhandled, "invalid states not designed out when possible")
    ∷ (r.unjustified_duplication, "duplication introduced without justification")
    ∷ (r.increases_change_amplification, "avoidable change amplification increased")
    ∷ (r.works_but_harder_to_change, "code works but makes future change harder")
    ∷ []

unfoldable pub strategic_programming_gate : StrategicProgramming → GateResult
strategic_programming_gate r = of "strategic_programming_gate" (collect (strategic_checks r))

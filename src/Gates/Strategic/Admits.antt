-- ===== src/Gates/Strategic/Admits.antt =====
-- What the strategic programming gate admits.
use agent_analysis.Prelude.{
  ◌≤◌, true, false, ◌≡◌, ◌≢◌, ◌↔◌, arith, All, iff_trans, length, has_text, strip, lower, codes,
  ◌⊎◌, eq_iff, same_codes, Option, some, none, refl,
}
use agent_analysis.Schemas.GateResult.{passed, passed-collect}
use agent_analysis.Schemas.Reviews.{DesignOption, StrategicProgramming}
use agent_analysis.Gates.Strategic.{
  find_option, is_justified, selection_justified, strategic_checks, strategic_programming_gate,
}

-- The option that the review selects says that it is selected, and argues for itself.
pub record IsArgued (o : DesignOption) : Type 0 where
  pub marked : same_codes (lower (strip o.rejected_or_selected)) (codes "selected") ≡ true
  pub argued : (has_text o.tradeoffs ≡ true) ⊎ (has_text o.summary ≡ true)

-- A design whose complexity is contained.
pub record IsContained (r : StrategicProgramming) : Type 0 where
  pub owned : has_text r.responsibility_owner ≡ true
  pub compared : 2 ≤ length r.design_options
  pub selected :
      (strip r.selected_design ≢ "")
      × ((o : DesignOption) × (find_option (strip r.selected_design) r.design_options ≡ some o)
          × IsArgued o)
  pub no_passthrough : r.introduces_shallow_passthrough ≡ false
  pub no_leak : r.complexity_leaks_into_callers ≡ false
  pub no_scatter : r.error_handling_scattered ≡ false
  pub no_invalid_state : r.invalid_states_unhandled ≡ false
  pub no_duplication : r.unjustified_duplication ≡ false
  pub no_amplification : r.increases_change_amplification ≡ false
  pub no_decay : r.works_but_harder_to_change ≡ false

justified_iff :
    (o : Option DesignOption)
    → (is_justified o ≡ true) ↔ ((p : DesignOption) × (o ≡ some p) × IsArgued p)
unfolding is_justified
justified_iff none = (λ h. cc, λ h. cc (h.1))
justified_iff (some o) = (λ h. (o, refl, ground arith), λ h. ground arith)

selection_iff :
    (r : StrategicProgramming)
    → (selection_justified r ≡ true) ↔ (
        (strip r.selected_design ≢ "")
        × ((o : DesignOption) × (find_option (strip r.selected_design) r.design_options ≡ some o)
            × IsArgued o))
unfolding selection_justified
selection_iff r =
    let blank = eq_iff (strip r.selected_design) "" in
    let found = justified_iff (find_option (strip r.selected_design) r.design_options) in
    (λ h. (ground arith, found.0 (ground arith)), λ h. let e = found.1 h.1 in ground arith)

checks_iff :
    (r : StrategicProgramming) → All (λ t. t.0 ≡ false) (strategic_checks r) ↔ IsContained r
unfolding strategic_checks
checks_iff r = (
  λ h. record {
    owned = ground arith;
    compared = ground arith;
    selected = (selection_iff r).0 (ground arith);
    no_passthrough = ground arith;
    no_leak = ground arith;
    no_scatter = ground arith;
    no_invalid_state = ground arith;
    no_duplication = ground arith;
    no_amplification = ground arith;
    no_decay = ground arith;
  },
  λ h. let e = (selection_iff r).1 h.selected in ground arith,
)

-- The strategic programming gate passes exactly when a responsible owner is named, two options or
-- more were considered, the selected one is marked so and argued, and no design smell is admitted.
pub strategic_programming_gate-passed_iff :
    (r : StrategicProgramming) → (passed (strategic_programming_gate r) ≡ true) ↔ IsContained r
unfolding strategic_programming_gate
strategic_programming_gate-passed_iff r = iff_trans (passed-collect _ _) (checks_iff r)

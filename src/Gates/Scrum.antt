-- ===== src/Gates/Scrum.antt =====
-- Admission of a task to execution (backend/app/gates/scrum_gate.py).
pub mod Admits
use agent_analysis.Prelude.{
  String, Bool, false, not, ◌&&◌, ◌==◌, List, [], ◌∷◌, Option, none, some, if◌then◌else◌, any, all,
  is_nil, ltb, length, collect, codes, lower, strip, occurs_in,
}
use agent_analysis.Schemas.GateResult.{GateResult, of}
use agent_analysis.Schemas.Reviews.{ScrumMapping}

abbrev pub testable_markers : List String
testable_markers =
    "must" ∷ "should" ∷ "returns" ∷ "fails" ∷ "passes" ∷ "rejects" ∷ "equals" ∷ "when" ∷ "then"
    ∷ "given" ∷ "exit code" ∷ "==" ∷ "!=" ∷ []

unfoldable pub is_testable : String → Bool
unfolding codes lower strip occurs_in
is_testable criterion =
    let text = lower (strip criterion) in
    if ltb (length text) 3
    then false
    else any (λ marker. occurs_in (codes marker) text) testable_markers

-- `locked is not None and version and version != locked`
unfoldable pub changed_mid_run : Option String → String → Bool
changed_mid_run none version = false
changed_mid_run (some locked) version = not (version == "") && not (version == locked)

unfoldable pub scrum_checks : ScrumMapping → Option String → List (Bool × String)
unfolding changed_mid_run
scrum_checks m locked =
    (m.product_backlog_item_id == "", "Product Backlog Item missing")
    ∷ (m.sprint_goal == "", "Sprint Goal missing")
    ∷ (m.sprint_backlog_task_id == "", "Sprint Backlog task missing")
    ∷ (is_nil m.acceptance_criteria, "acceptance criteria missing")
    ∷ (
      not (is_nil m.acceptance_criteria) && not (all is_testable m.acceptance_criteria),
      "acceptance criteria not testable",
    )
    ∷ (m.definition_of_done_version == "", "Definition of Done version missing")
    ∷ (not m.supports_sprint_goal, "task does not support Sprint Goal")
    ∷ (changed_mid_run locked m.definition_of_done_version, "Definition of Done changed mid-run")
    ∷ []

unfoldable pub scrum_gate : ScrumMapping → Option String → GateResult
scrum_gate m locked = of "scrum_gate" (collect (scrum_checks m locked))

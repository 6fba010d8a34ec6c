-- ===== src/Gates/Scrum/Admits.antt =====
-- What the Scrum gate admits.
use agent_analysis.Prelude.{
  true, false, eq_iff, ◌≡◌, ◌≢◌, ◌↔◌, [], arith, All, Option, none, some, Memᴰ, String, all→mem,
  mem→all, iff_trans, refl,
}
use agent_analysis.Schemas.GateResult.{passed, passed-collect}
use agent_analysis.Schemas.Reviews.{ScrumMapping}
use agent_analysis.Gates.Scrum.{is_testable, changed_mid_run, scrum_checks, scrum_gate}

-- A task that is fully mapped onto Scrum artifacts, under the definition of done that is locked.
pub record IsMapped (m : ScrumMapping) (locked : Option String) : Type 0 where
  pub has_item : m.product_backlog_item_id ≢ ""
  pub has_goal : m.sprint_goal ≢ ""
  pub has_task : m.sprint_backlog_task_id ≢ ""
  pub has_criteria : m.acceptance_criteria ≢ []
  pub testable : (c : String) → Memᴰ c m.acceptance_criteria → is_testable c ≡ true
  pub has_definition_of_done : m.definition_of_done_version ≢ ""
  pub supports : m.supports_sprint_goal ≡ true
  pub unchanged : (v : String) → locked ≡ some v → m.definition_of_done_version ≡ v

changed_iff :
    (locked : Option String) (version : String)
    → version ≢ ""
    → (changed_mid_run locked version ≡ false) ↔ ((v : String) → locked ≡ some v → version ≡ v)
unfolding changed_mid_run
changed_iff none version b = (λ h v e. cc, λ h. refl)
changed_iff (some l) version b = (
  λ h v e. let q = eq_iff version "" in let p = eq_iff version l in ground arith,
  λ h. let q = eq_iff version "" in let p = eq_iff version l in ground (arith, h l refl),
)

checks_iff :
    (m : ScrumMapping) (locked : Option String)
    → All (λ c. c.0 ≡ false) (scrum_checks m locked) ↔ IsMapped m locked
unfolding scrum_checks
checks_iff m locked =
    let item = eq_iff m.product_backlog_item_id "" in
    let goal = eq_iff m.sprint_goal "" in
    let task = eq_iff m.sprint_backlog_task_id "" in
    let done = eq_iff m.definition_of_done_version "" in
    (
      λ h. record {
        has_item = ground arith;
        has_goal = ground arith;
        has_task = ground arith;
        has_criteria = ground arith;
        testable = λ c i. all→mem is_testable c m.acceptance_criteria (ground arith) i;
        has_definition_of_done = ground arith;
        supports = ground arith;
        unchanged =
            (changed_iff locked m.definition_of_done_version (ground arith)).0 (ground arith);
      },
      λ h.
          let every = mem→all is_testable m.acceptance_criteria h.testable in
          let same =
            (changed_iff locked m.definition_of_done_version h.has_definition_of_done).1
              h.unchanged in
          ground arith,
    )

-- The Scrum gate passes exactly the mappings that name an item, a goal, a task, a definition of
-- done and testable criteria, support the sprint goal, and keep a locked definition of done.
pub scrum_gate-passed_iff :
    (m : ScrumMapping) (locked : Option String)
    → (passed (scrum_gate m locked) ≡ true) ↔ IsMapped m locked
unfolding scrum_gate
scrum_gate-passed_iff m locked = iff_trans (passed-collect _ _) (checks_iff m locked)

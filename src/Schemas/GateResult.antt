-- ===== src/Schemas/GateResult.antt =====
-- The typed output of every gate (backend/app/schemas/gate_result.py).
use agent_analysis.Prelude.{
  String, Bool, true, false, ◌≡◌, refl, ◌↔◌, List, [], ◌∷◌, if◌then◌else◌, collect, collect-eq-nil,
  All,
}
use agent_analysis.Schemas.Constants.{GateStatus, is_gate_pass}

pub record GateResult : Type 0 where
  pub gate_name : String
  pub status : GateStatus
  pub reasons : List String
  pub required_corrections : List String

-- the property `passed`
unfoldable pub passed : GateResult → Bool
passed g = is_gate_pass g.status

status_of : List String → Bool → GateStatus
status_of [] blocked = GateStatus.pass
status_of (r ∷ rs) blocked = if blocked then GateStatus.blocked else GateStatus.fail

-- `GateResult.of` with all its arguments.
unfoldable pub of_full : String → List String → Bool → List String → GateResult
unfolding status_of
of_full gate_name reasons blocked required_corrections = record {
  gate_name = gate_name;
  status = status_of reasons blocked;
  reasons = reasons;
  required_corrections = required_corrections;
}

-- `GateResult.of(name, reasons)`, the call that the gates make.
unfoldable pub of : String → List String → GateResult
unfolding of_full
of gate_name reasons = of_full gate_name reasons false []

pub passed-of :
    (name : String) (reasons : List String) → (passed (of name reasons) ≡ true) ↔ (reasons ≡ [])
unfolding passed of
passed-of name [] = (λ e. refl, λ e. refl)
passed-of name (r ∷ rs) = (λ e. cc, λ e. cc)

-- A gate that collects the reasons of its tests passes exactly when no test holds.
pub passed-collect :
    (name : String) (checks : List (Bool × String))
    → (passed (of name (collect checks)) ≡ true) ↔ All (λ c. c.0 ≡ false) checks
passed-collect name checks = (
  λ e. (collect-eq-nil checks).0 ((passed-of name (collect checks)).0 e),
  λ h. (passed-of name (collect checks)).1 ((collect-eq-nil checks).1 h),
)

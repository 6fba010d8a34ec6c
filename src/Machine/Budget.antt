-- ===== src/Machine/Budget.antt =====
-- The retry budget (backend/app/retry_budget.py).
use agent_analysis.Prelude.{String, Bool, true, false, ℤ, le_int, if◌then◌else◌, ◌≡◌, ◌↔◌, arith}

pub record RetryStatus : Type 0 where
  pub exhausted : Bool
  pub status : String
  pub reason : String

-- The keyword arguments, defaults filled in by the caller.
pub record Attempts : Type 0 where
  pub agent_attempts : ℤ
  pub verifier_failures : ℤ
  pub max_agent_attempts : ℤ
  pub max_verifier_failures : ℤ
  pub on_exhaustion : String

unfoldable pub evaluate_retry_budget : Attempts → RetryStatus
unfolding le_int
evaluate_retry_budget a =
    if le_int a.max_agent_attempts a.agent_attempts
    then record {
      exhausted = true;
      status = a.on_exhaustion;
      reason = "max_agent_attempts reached";
    }
    else if le_int a.max_verifier_failures a.verifier_failures
    then record {
      exhausted = true;
      status = a.on_exhaustion;
      reason = "max_verifier_failures reached";
    }
    else record { exhausted = false; status = "CONTINUE"; reason = "" }

-- The budget is left exactly when both counts are below their bounds; the status is CONTINUE while
-- it is left, and the status on exhaustion otherwise.
pub evaluate_retry_budget_iff :
    (a : Attempts)
    → (((evaluate_retry_budget a).exhausted ≡ false) ↔ (
        (le_int a.max_agent_attempts a.agent_attempts ≡ false)
        × (le_int a.max_verifier_failures a.verifier_failures ≡ false)))
      × ((evaluate_retry_budget a).status
          ≡ (if (evaluate_retry_budget a).exhausted then a.on_exhaustion else "CONTINUE"))
unfolding evaluate_retry_budget
evaluate_retry_budget_iff a = ((λ h. ground arith, λ h. ground arith), ground arith)

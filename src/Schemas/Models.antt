-- ===== src/Schemas/Models.antt =====
-- Declared models of a run (backend/app/schemas/model_policy.py). A `float` that no code computes
-- with is its decimal text.
use agent_analysis.Prelude.{String, Bool, true, false, ◌||◌, List, ℤ, is_positive}

pub data ModelRole : Type 0 where
  coding_agent verifier evaluator analyst router : ModelRole

unfoldable pub model_role_value : ModelRole → String
model_role_value ModelRole.coding_agent = "CODING_AGENT"
model_role_value ModelRole.verifier = "VERIFIER"
model_role_value ModelRole.evaluator = "EVALUATOR"
model_role_value ModelRole.analyst = "ANALYST"
model_role_value ModelRole.router = "ROUTER"

-- `==` on roles
unfoldable pub role_eq : ModelRole → ModelRole → Bool
role_eq ModelRole.coding_agent ModelRole.coding_agent = true
role_eq ModelRole.verifier ModelRole.verifier = true
role_eq ModelRole.evaluator ModelRole.evaluator = true
role_eq ModelRole.analyst ModelRole.analyst = true
role_eq ModelRole.router ModelRole.router = true
role_eq _ _ = false

pub record RateLimit : Type 0 where
  pub requests_per_min : ℤ
  pub tokens_per_min : ℤ

-- the property `is_set`
unfoldable pub is_set : RateLimit → Bool
unfolding is_positive
is_set r = is_positive r.requests_per_min || is_positive r.tokens_per_min

pub record ModelSpec : Type 0 where
  pub model_id : String
  pub provider : String
  pub role : ModelRole
  pub model_run_id : String
  pub permissions : List String
  pub temperature : String
  pub top_p : String
  pub seed : ℤ
  pub prompt_hash : String
  pub parallel_tool_calls : Bool
  pub rate_limit : RateLimit
  pub fallback_model_id : String
  pub max_retries : ℤ

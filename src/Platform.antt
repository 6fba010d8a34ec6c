-- ===== src/Platform.antt =====
-- What the program takes from Python's standard library and from pydantic, as operations that the
-- model is given. No law is assumed here; a theorem that needs one has it as a hypothesis.
use agent_analysis.Prelude.{ℕ, String, Bool}
use agent_analysis.Schemas.Json.{Value}
use agent_analysis.Schemas.Checkpoint.{Checkpoint}

pub record Platform : Type 0 where
  -- hashlib.sha256(data).hexdigest()
  pub sha256 : String → String
  -- fnmatch.fnmatch(name, pattern)
  pub fnmatch : String → String → Bool
  -- json.dumps(value, indent=2)
  pub dumps : Value → String
  -- checkpoint.model_dump_json(indent=2)
  pub dump_checkpoint : Checkpoint → String
  -- str(Path(a) / b)
  pub join_path : String → String → String
  -- datetime.now(timezone.utc).isoformat(), at the n-th reading of the clock
  pub utcnow : ℕ → String
  -- str(round(a / b, 4))
  pub round_ratio : ℕ → ℕ → String

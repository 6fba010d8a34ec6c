-- ===== src/Runners/Sandbox.antt =====
-- The sandbox policy and the command runner (backend/app/runners/sandbox_policy.py,
-- command_runner.py). `fnmatch` is Python's; what the shell does is a parameter.
pub mod Permits
use agent_analysis.Prelude.{
  ℕ, String, Bool, true, false, not, ◌==◌, ◌&&◌, ◌+s◌, List, [], ◌∷◌, Option, none, some,
  if◌then◌else◌, any, is_nil, slashes, join, ℤ, is_zero, pos,
}
use agent_analysis.Schemas.Constants.{RunType, is_implementation}
use agent_analysis.Schemas.GateResult.{GateResult, of, passed}

pub record SandboxPolicy : Type 0 where
  pub read_only : Bool
  pub workspace_path : String
  pub network_enabled : Bool
  pub allowed_commands : List String
  pub forbidden_commands : List String
  pub files_in_scope : List String
  pub files_out_of_scope : List String
  pub timeout_seconds : ℤ

-- The keyword arguments of `build_policy`, an omitted list being empty.
pub record PolicyRequest : Type 0 where
  pub files_in_scope : List String
  pub files_out_of_scope : List String
  pub allowed_commands : List String
  pub forbidden_commands : List String
  pub workspace_path : String

unfoldable pub build_policy : RunType → PolicyRequest → SandboxPolicy
build_policy run_type r = record {
  read_only = not (is_implementation run_type);
  workspace_path = r.workspace_path;
  network_enabled = false;
  allowed_commands = r.allowed_commands;
  forbidden_commands = r.forbidden_commands;
  files_in_scope = r.files_in_scope;
  files_out_of_scope = r.files_out_of_scope;
  timeout_seconds = pos 600;
}

-- What a stream of a command holds: a text, or the bytes that a TimeoutExpired carries on POSIX even
-- with `text=True`.
pub data Captured : Type 0 where
  decoded : String → Captured
  raw : String → Captured

pub record CommandResult : Type 0 where
  pub command : String
  pub rejected : Bool
  pub reason : String
  pub exit_code : Option ℤ
  pub stdout : Captured
  pub stderr : Captured
  pub timed_out : Bool

-- How a command that the shell runs ends. What it writes is text of the locale's encoding; of a command
-- that times out, the bytes so far, empty for the `None` of a stream with none.
pub data Completion : Type 0 where
  completed : ℤ → String → String → Completion
  expired : String → String → Completion

-- `exc.stdout or ""`
unfoldable pub or_text : String → Captured
or_text bytes = if bytes == "" then decoded "" else raw bytes

-- the property `ok`
unfoldable pub is_ok : CommandResult → Bool
unfolding is_zero
is_ok r =
    not r.rejected
    && not r.timed_out
    && (elim r.exit_code [ none ↦ false | some code ↦ is_zero code ])

module _ (fnmatch : String → String → Bool) where
  -- `_matches_any`
  unfoldable pub pattern_matches : String → List String → Bool
  pattern_matches path patterns = any (λ p. fnmatch (slashes path) (slashes p)) patterns

  unfoldable pub write_reasons : SandboxPolicy → String → List String
  unfolding pattern_matches
  write_reasons policy path =
      if policy.read_only
      then "read-only mode must not modify repository files" ∷ []
      else if not (is_nil policy.files_in_scope) && not (pattern_matches path policy.files_in_scope)
      then ("write outside approved scope: " +s path) ∷ []
      else if pattern_matches path policy.files_out_of_scope
      then ("write to out-of-scope file: " +s path) ∷ []
      else []

  unfoldable pub check_write : SandboxPolicy → String → GateResult
  unfolding write_reasons
  check_write policy path = of "sandbox_write_policy" (write_reasons policy path)

  unfoldable pub command_reasons : SandboxPolicy → String → List String
  unfolding pattern_matches
  command_reasons policy command =
      if pattern_matches command policy.forbidden_commands
      then ("forbidden command: " +s command) ∷ []
      else if not (is_nil policy.allowed_commands)
          && not (pattern_matches command policy.allowed_commands)
      then ("command not allowlisted: " +s command) ∷ []
      else []

  unfoldable pub check_command : SandboxPolicy → String → GateResult
  unfolding command_reasons
  check_command policy command = of "sandbox_write_policy" (command_reasons policy command)

  -- CommandRunner(policy, …).run(command). The commands that reach the shell are listed, so that the
  -- effects of a run are those of this list.
  unfoldable pub run_command :
      (String → Completion) → SandboxPolicy → String → CommandResult × List String
  unfolding check_command or_text
  run_command shell policy command =
      if not (passed (check_command policy command))
      then (
        record {
          command = command;
          rejected = true;
          reason = join "; " (check_command policy command).reasons;
          exit_code = none;
          stdout = decoded "";
          stderr = decoded "";
          timed_out = false;
        },
        [],
      )
      else (
        elim (shell command) [
          | Completion.completed code out err ↦ record {
            command = command;
            rejected = false;
            reason = "";
            exit_code = some code;
            stdout = decoded out;
            stderr = decoded err;
            timed_out = false;
          }
          | Completion.expired out err ↦ record {
            command = command;
            rejected = false;
            reason = "";
            exit_code = none;
            stdout = or_text out;
            stderr = or_text err;
            timed_out = true;
          }
        ],
        command ∷ [],
      )

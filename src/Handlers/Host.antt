-- ===== src/Handlers/Host.antt =====
-- What the handlers ask of the machine and of libraries, as operations that the model is given.
use agent_analysis.Prelude.{String, Bool, List, Option, ℤ}
use agent_analysis.Schemas.Json.{Value}
use agent_analysis.Schemas.Reviews.{StrategicProgramming}
use agent_analysis.Chains.Context.{RepoFile}
use agent_analysis.Runners.Sandbox.{Completion}

-- The working tree at `repo_fs_path`; `none` where the path does not exist.
abbrev pub Tree : Type 0
Tree = Option (List RepoFile)

-- `path.is_file()`, then `path.read_text(encoding="utf-8", errors="replace")`.
pub data Reading : Type 0 where
  no_file unreadable : Reading
  content : String → Reading

-- The end of a parse: a value, a YAMLError with its text, or another exception.
pub data Loaded : Type 0 where
  loaded raised : Loaded
  malformed : String → Loaded

pub record Host : Type 0 where
  -- subprocess.run(command, shell=True, cwd=repo, …): how it ends, and the tree that it leaves
  pub shell : Tree → String → Completion × Tree
  -- subprocess.run(["git", "-C", repo, …]) after the git commands of the same capture, since
  -- `git add -N` changes the index: the return code and the standard output; `none` is a timeout or
  -- a git that is not installed
  pub git : Tree → List (List String) → List String → Option (ℤ × String)
  -- str(v) of a list or a dict
  pub repr : Value → String
  -- pydantic's reading of an `int` field; `none` is a ValidationError
  pub as_int : Value → Option ℤ
  -- StrategicProgramming.model_validate(v); `none` is a ValidationError
  pub parse_design : Value → Option StrategicProgramming
  -- the file that `repo / path` names
  pub read : Tree → String → Reading
  -- `(doc.parent / link).resolve()` is inside the tree, and exists
  pub link_holds : Tree → String → String → Bool
  -- re.search(pattern, text), re.findall(pattern, text) with one group
  pub search : String → String → Bool
  pub findall : String → String → List String
  -- yaml.safe_load(text)
  pub load_yaml : String → Loaded

-- ===== src/Runtime/Workspace.antt =====
-- Where a run may execute, and its attempts (backend/app/runtime/workspace_policy.py,
-- workspace_allocator.py). The operating system's paths and git are parameters.
pub mod Accepts
use agent_analysis.Prelude.{
  ℕ, ◌+◌, String, Bool, true, false, not, ◌==◌, ◌&&◌, ◌||◌, ◌+s◌, List, [], ◌∷◌, Option, none, some,
  if◌then◌else◌, member, length, has_text, strip, ℤ, is_zero, show_nat,
}

-- pathlib and git, as the source uses them.
pub record Paths : Type 0 where
  -- Path(p).parts
  pub parts : String → List String
  -- str(Path(p).resolve())
  pub resolve : String → String
  -- the texts of p.parents
  pub parents : String → List String
  -- Path(p).exists()
  pub exists : String → Bool
  -- subprocess.run(["git", "-C", p, …]): the return code and the standard output; `none` is a
  -- timeout or a git that is not installed
  pub git : String → List String → Option (ℤ × String)

-- A value, or the text of a WorkspacePolicyError.
pub data Checked {ℓ} (A : Type ℓ) : Type ℓ where
  accepted : A → Checked A
  refused : String → Checked A

-- The first pair of equal neighbours that is not a pair of separators.
unfoldable pub nested_duplicate : List String → Option String
nested_duplicate [] = none
nested_duplicate (a ∷ []) = none
nested_duplicate (a ∷ b ∷ rest) =
    let later = nested_duplicate (b ∷ rest) in
    if a == b && not (member a ("/" ∷ "\\" ∷ [])) then some a else later

-- `RunAttempt` (backend/app/storage/run_records.py)
pub record RunAttempt : Type 0 where
  pub attempt_id : String
  pub attempt_number : ℕ
  pub base_commit : Option String
  pub workspace_id : Option String
  pub final_status : Option String
  pub created_at : Option String

pub record WorkspaceAllocation : Type 0 where
  pub attempt : RunAttempt
  pub execution_path : String

module _ (paths : Paths) where
  -- GitRunner(repo).is_repo() (backend/app/runners/git_runner.py)
  unfoldable pub is_repo : String → Bool
  unfolding strip is_zero
  is_repo repo = elim (paths.git repo ("rev-parse" ∷ "--is-inside-work-tree" ∷ [])) [
    | none ↦ false
    | some (code, stdout) ↦ is_zero code && strip stdout == "true"
  ]

  -- GitRunner(repo).head_commit()
  unfoldable pub head_commit : String → Option String
  unfolding is_repo strip is_zero
  head_commit repo =
      if not (is_repo repo) then none else elim (paths.git repo ("rev-parse" ∷ "HEAD" ∷ [])) [
        | none ↦ none
        | some (code, stdout) ↦
            if is_zero code && not (strip stdout == "") then some (strip stdout) else none
      ]

  -- WorkspacePolicy(allowed_root).resolve(execution_path), with a non-null path.
  unfoldable pub resolve : String → String → Checked String
  unfolding nested_duplicate has_text
  resolve allowed_root execution_path =
      let root = paths.resolve allowed_root in
      let resolved = paths.resolve execution_path in
      if not (has_text execution_path)
      then Checked.refused "empty repo path"
      else elim (nested_duplicate (paths.parts execution_path)) [
        | some a ↦ Checked.refused ("nested duplicate path segment: " +s a)
        | none ↦
            if not (resolved == root) && not (member root (paths.parents resolved))
            then Checked.refused ("path outside allowed workspace (" +s root +s "): " +s resolved)
            else if not (paths.exists resolved)
            then Checked.refused ("repo path does not exist: " +s resolved)
            else Checked.accepted resolved
      ]

  -- `run_id` and `attempts` are the record's; `created_at` is the time of the call.
  unfoldable pub allocate :
      String → String → List RunAttempt → String → String → Checked WorkspaceAllocation
  unfolding resolve head_commit show_nat
  allocate allowed_root run_id attempts requested_path created_at =
      elim (resolve allowed_root requested_path) [
        | Checked.refused why ↦ Checked.refused why
        | Checked.accepted resolved ↦
            let attempt_number = length attempts + 1 in
            Checked.accepted (record {
              attempt = record {
                attempt_id = run_id +s "-a" +s show_nat attempt_number;
                attempt_number = attempt_number;
                base_commit = head_commit resolved;
                workspace_id = some ("workspace-" +s run_id +s "-a" +s show_nat attempt_number);
                final_status = none;
                created_at = some created_at;
              };
              execution_path = resolved;
            })
      ]

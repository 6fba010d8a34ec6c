-- ===== src/Handlers/Implementation/Diff.antt =====
-- The capture of a diff (DiffCaptureHandler of backend/app/handlers/implementation.py, and
-- GitRunner.capture of backend/app/runners/git_runner.py).
use agent_analysis.Prelude.{
  String, Bool, true, false, not, ◌==◌, ◌&&◌, List, [], ◌∷◌, Option, none, some, ◌>>=◌,
  if◌then◌else◌, ◌+s◌, lines, strip, has_text, prefix, is_zero, select,
}
use agent_analysis.Platform.{Platform}
use agent_analysis.Schemas.Json.{Fields, null, text, array, nil, end, truthy, flag, get_or}
use agent_analysis.Schemas.Reading.{as_object, iterate, texts_of, str_of}
use agent_analysis.Schemas.Ledger.{ArtifactType, LedgerResult, Artifact}
use agent_analysis.Schemas.Chain.{ChainRequest, HandlerDecision}
use agent_analysis.Chains.Context.{ChainContext, record_artifact}
use agent_analysis.Handlers.Base.{Handling, ok_result, fail_result}
use agent_analysis.Handlers.Host.{Host, Tree}
use agent_analysis.Handlers.Commands.{command_of, recorded, log_request}

pub record GitCapture : Type 0 where
  pub status : String
  pub diff : String
  pub diff_check : String
  pub diff_check_ok : Bool
  pub changed_files : List String

-- [line.strip() for line in names.splitlines() if line.strip()]
unfoldable pub file_names : String → List String
file_names names = select strip has_text (lines names)

module _ (os : Platform) (host : Host) where
  -- GitRunner(tree).is_repo()
  unfoldable pub tree_is_repo : Tree → Bool
  tree_is_repo tree = elim (host.git tree [] ("rev-parse" ∷ "--is-inside-work-tree" ∷ [])) [
    | none ↦ false
    | some (code, stdout) ↦ is_zero code && strip stdout == "true"
  ]

  -- GitRunner(tree).capture(); its five git commands run in this order.
  unfoldable pub capture : Tree → Option GitCapture
  unfolding file_names
  capture tree =
      let add = "add" ∷ "-N" ∷ "." ∷ [] in
      let status = "status" ∷ "--short" ∷ [] in
      let diff = "diff" ∷ [] in
      let check = "diff" ∷ "--check" ∷ [] in
      let names = "diff" ∷ "--name-only" ∷ [] in
      do
        added ← host.git tree [] add
        status_end ← host.git tree (add ∷ []) status
        diff_end ← host.git tree (add ∷ status ∷ []) diff
        check_end ← host.git tree (add ∷ status ∷ diff ∷ []) check
        names_end ← host.git tree (add ∷ status ∷ diff ∷ check ∷ []) names
        some (record {
          status = status_end.1;
          diff = diff_end.1;
          diff_check = check_end.1;
          diff_check_ok = is_zero check_end.0;
          changed_files = file_names names_end.1;
        })

  -- The diff that the caller supplies with the candidate.
  unfoldable pub supplied_diff : Fields → Option GitCapture
  supplied_diff candidate = do
    names ← iterate (get_or "changed_files" (array nil) candidate)
    changed ← texts_of names
    some (record {
      status = str_of host.repr (get_or "git_status" (text "") candidate);
      diff = str_of host.repr (get_or "diff" null candidate);
      diff_check = str_of host.repr (get_or "diff_check" (text "") candidate);
      diff_check_ok = true;
      changed_files = changed;
    })

  -- The three records of a capture.
  unfoldable pub record_capture : GitCapture → ChainContext → Option (Artifact × ChainContext)
  record_capture taken c =
      let self = command_of "DiffCaptureHandler" in
      do
        d ←
            record_artifact os
              (log_request self "diff.patch" taken.diff ArtifactType.diff "git diff"
                LedgerResult.info)
              c
        s ←
            record_artifact os
              (log_request self "git_status.log" taken.status ArtifactType.command_output
                "git status --short" LedgerResult.info)
              d.1
        k ←
            record_artifact os
              (log_request self "diff_check.log" taken.diff_check ArtifactType.command_output
                "git diff --check" LedgerResult.info)
              s.1
        some (d.0, record (k.1) { changed_files = taken.changed_files })

  -- What follows a capture.
  unfoldable pub report_capture : GitCapture → ChainContext → Handling
  unfolding record_capture
  report_capture taken c =
      let self = command_of "DiffCaptureHandler" in
      recorded (record_capture taken c) (λ diff.
        if not taken.diff_check_ok
        then fail_result self
            (("git diff --check reported errors: " +s prefix 200 (strip taken.diff_check)) ∷ [])
            false [] []
        else ok_result self HandlerDecision.go_on (diff.path ∷ []) [] end)

  unfoldable pub blocked_capture : String → ChainContext → Handling
  blocked_capture reason c =
      some (fail_result (command_of "DiffCaptureHandler") (reason ∷ []) true [] [], c)

  -- The capture of the working tree.
  unfoldable pub capture_tree : ChainContext → Handling
  unfolding blocked_capture
  capture_tree c =
      if not (tree_is_repo c.repo)
      then blocked_capture
          "diff.patch required; not a git repository and no candidate diff provided" c
      else (do
        taken ← capture c.repo
        (if not (has_text taken.diff)
            then blocked_capture "diff.patch required; no changes detected in working tree" c
            else report_capture taken c))

  unfoldable pub capture_diff : ChainRequest → ChainContext → Handling
  capture_diff request c =
      let shared = get_or "candidate" null c.shared in
      do
        candidate ← if truthy shared then as_object shared else some end
        (if flag "diff" candidate
            then (do taken ← supplied_diff candidate; report_capture taken c)
            else capture_tree c)

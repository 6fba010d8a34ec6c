-- ===== src/Handlers/Reproduction.antt =====
-- The test runner and the reproduction of a failure (TestRunnerHandler, run_reproduction and
-- FailureReproductionHandler of backend/app/handlers/implementation.py, ReproductionHandler of
-- backend/app/handlers/ci_failure.py).
use agent_analysis.Prelude.{
  String, true, false, not, List, [], ◌∷◌, ◌++◌, Option, none, some, ◌>>=◌, if◌then◌else◌, ◌+s◌,
  map, ℤ,
}
use mathlib.Core.Option
use agent_analysis.Platform.{Platform}
use agent_analysis.Schemas.Json.{
  Value, Items, null, bool, int, text, object, nil, cons, end, field, truthy, flag, get_or,
  set_field,
}
use agent_analysis.Schemas.Reading.{as_object, as_text, iterate, all_zero, any_failed}
use agent_analysis.Schemas.Ledger.{ArtifactType, LedgerResult}
use agent_analysis.Schemas.Chain.{ChainRequest, HandlerDecision}
use agent_analysis.Chains.Context.{ChainContext, record_artifact}
use agent_analysis.Gates.Tests.{TestOutcome}
use agent_analysis.Handlers.Base.{Handling, Identity, ok_result, fail_result, skip_result}
use agent_analysis.Handlers.Host.{Host, Tree}
use agent_analysis.Handlers.Commands.{Evidence, command_of, log_request, gather_evidence}

-- [f"command not allowed: {r}" for r in rejected]
unfoldable pub rejections : List String → List String
rejections rejected = map (λ r. "command not allowed: " +s r) rejected

-- The reading of the logs that an evidence entry and its outcomes need.
pub record Logs : Type 0 where
  pub logs : Value
  pub command : String
  pub items : Items

unfoldable pub read_logs : Value → Value → Option Logs
read_logs logs command = do
  items ← iterate logs
  line ← as_text command
  some (record { logs = logs; command = line; items = items })

module _ (os : Platform) (host : Host) where
  -- The field `exit_code: int | None`.
  unfoldable pub exit_field : Value → Option (Option ℤ)
  exit_field null = some none
  exit_field v = Option.map some (host.as_int v)

  -- TestOutcome(command=o.get("command", command), ran=True, …).
  unfoldable pub outcome_of : String → String → Value → Option TestOutcome
  unfolding exit_field
  outcome_of command path log = do
    fs ← as_object log
    name ← as_text (get_or "command" (text command) fs)
    code ← exit_field (get_or "exit_code" (int (ℤ.pos 0)) fs)
    some (record {
      command = name;
      ran = true;
      exit_code = code;
      output_path = path;
      truncated = false;
      skipped = false;
      skip_approved = false;
    })

  unfoldable pub outcomes_of : String → String → Items → Option (List TestOutcome)
  unfolding outcome_of
  outcomes_of command path nil = some []
  outcomes_of command path (cons log logs) = do
    o ← outcome_of command path log
    rest ← outcomes_of command path logs
    some (o ∷ rest)

  -- What follows the evidence: the record, and an outcome for each log.
  unfoldable pub report_tests : Value → Value → ChainContext → Handling
  unfolding outcomes_of read_logs
  report_tests logs command c =
      let self = command_of "TestRunnerHandler" in
      do
        read ← read_logs logs command
        passes ← all_zero read.items
        art ←
            record_artifact os
              (log_request self "test_output.log" (os.dumps logs) ArtifactType.test read.command
                (if passes then LedgerResult.pass else LedgerResult.fail))
              c
        outcomes ← outcomes_of read.command (art.0).path read.items
        some (
          ok_result self HandlerDecision.go_on ((art.0).path ∷ []) [] end,
          record (art.1) { test_outcomes = (art.1).test_outcomes ++ outcomes },
        )

  unfoldable pub blocked_tests : List String → Tree → ChainContext → Handling
  blocked_tests reasons tree c =
      some
        (fail_result (command_of "TestRunnerHandler") reasons true [] [], record c { repo = tree })

  -- What becomes of the evidence.
  unfoldable pub settle_tests : Evidence → ChainContext → Handling
  unfolding blocked_tests rejections
  settle_tests Evidence.missing c =
      blocked_tests ("test output required; no test command or test evidence provided" ∷ []) c.repo
        c
  settle_tests (Evidence.refused rejected tree) c = blocked_tests (rejections rejected) tree c
  settle_tests (Evidence.gathered logs command tree) c =
      report_tests logs command (record c { repo = tree })

  unfoldable pub run_tests : ChainRequest → ChainContext → Handling
  run_tests request c =
      let meta = request.metadata in
      if flag "tests_not_applicable" meta
      then (do
        reason ← as_text (get_or "tests_not_applicable_reason" (text "tests not applicable") meta)
        some (skip_result (command_of "TestRunnerHandler") reason, c))
      else (do
        evidence ←
            gather_evidence os host request meta (get_or "test_outcomes" null meta)
              (text "python -m pytest") (get_or "test_commands" null meta) c.repo
        settle_tests evidence c)

  -- `any(…)` over the logs decides; a run that did not fail is recorded, and refused as a baseline.
  unfoldable pub report_reproduction : Identity → String → Value → Value → ChainContext → Handling
  unfolding read_logs
  report_reproduction self artifact_name logs command c = do
    read ← read_logs logs command
    reproduced ← any_failed read.items
    art ←
        record_artifact os
          (log_request self artifact_name (os.dumps logs) ArtifactType.test read.command
            (if reproduced then LedgerResult.fail else LedgerResult.pass))
          c
    some (
        if reproduced
        then (
          ok_result self HandlerDecision.go_on ((art.0).path ∷ []) []
              (field "reproduced" (bool true) end),
          record (art.1) {
            shared =
                set_field "reproduction"
                  (object (
                    field "command" (text read.command)
                      (field "artifact" (text (art.0).path) (field "outcomes" logs end))))
                  (art.1).shared;
          },
        )
        else (
          fail_result self
              ("reproduction did not fail; no baseline bug to fix (all reproduction commands exited 0)"
                ∷ [])
              false [] [],
          art.1,
        ))

  unfoldable pub blocked_reproduction :
      Identity → List String → List String → Tree → ChainContext → Handling
  blocked_reproduction self reasons corrections tree c =
      some (fail_result self reasons true [] corrections, record c { repo = tree })

  -- What becomes of the evidence.
  unfoldable pub settle_reproduction : Identity → String → Evidence → ChainContext → Handling
  unfolding blocked_reproduction rejections
  settle_reproduction self artifact_name Evidence.missing c =
      blocked_reproduction self
        ("reproduction provided without test_outcomes or test_commands" ∷ []) [] c.repo c
  settle_reproduction self artifact_name (Evidence.refused rejected tree) c =
      blocked_reproduction self (rejections rejected) [] tree c
  settle_reproduction self artifact_name (Evidence.gathered logs command tree) c =
      report_reproduction self artifact_name logs command (record c { repo = tree })

  -- run_reproduction(handler, request, context, repro, …). Both callers drop the second and the third
  -- part of what it returns.
  unfoldable pub run_reproduction :
      Identity → ChainRequest → ChainContext → Value → String → String → Handling
  unfolding blocked_reproduction
  run_reproduction self request c repro artifact_name missing_reason =
      if not (truthy repro)
      then blocked_reproduction self (missing_reason ∷ [])
          ("supply request.metadata.reproduction with a failing test_outcomes entry or a test_commands list"
            ∷ [])
          c.repo c
      else (do
        fields ← as_object repro
        evidence ←
            gather_evidence os host request fields (get_or "test_outcomes" null fields)
              (get_or "command" (text "python -m pytest") fields)
              (get_or "test_commands" null fields) c.repo
        settle_reproduction self artifact_name evidence c)

  -- FailureReproductionHandler.handle
  unfoldable pub reproduce_failure : ChainRequest → ChainContext → Handling
  reproduce_failure request c =
      run_reproduction (command_of "FailureReproductionHandler") request c
        (get_or "reproduction" null request.metadata) "failure_reproduction.log"
        "reproduction required; a bug fix must first reproduce the failure"

  -- ReproductionHandler.handle
  unfoldable pub reproduce_ci_failure : ChainRequest → ChainContext → Handling
  reproduce_ci_failure request c =
      run_reproduction (command_of "ReproductionHandler") request c
        (get_or "reproduction" null request.metadata) "ci_failure_reproduction.log"
        "reproduction required; a CI failure must be reproduced locally before repair"

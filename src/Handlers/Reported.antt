-- ===== src/Handlers/Reported.antt =====
-- What the report of a test run leaves behind (TestRunnerHandler of
-- backend/app/handlers/implementation.py).
use agent_analysis.Prelude.{
  String, Bool, true, false, ◌≡◌, ◌≢◌, ◌↔◌, refl, sym, ap, ◌∙◌, List, [], ◌∷◌, ◌++◌, some,
  some_injective, arith, Option-cases, inl, inr, ◌>>=◌, if◌then◌else◌, iff_trans,
}
use agent_analysis.Platform.{Platform}
use agent_analysis.Schemas.Json.{Value, Items, end}
use agent_analysis.Schemas.Reading.{as_text, iterate, all_zero}
use agent_analysis.Schemas.Ledger.{ArtifactType, LedgerResult, LedgerEntry, Artifact}
use agent_analysis.Schemas.Chain.{HandlerDecision, HandlerResult, HandlerStatus}
use agent_analysis.Chains.Context.{ChainContext, record_artifact}
use agent_analysis.Gates.Tests.{TestOutcome}
use agent_analysis.Handlers.Base.{ok_result}
use agent_analysis.Handlers.Host.{Host}
use agent_analysis.Handlers.Commands.{command_of, log_request}
use agent_analysis.Handlers.Reproduction.{read_logs, outcomes_of, report_tests}
use agent_analysis.Handlers.Recorded.{record_artifact-HasRecorded}
use agent_analysis.Handlers.Outcomes.{AllZero, all_zero_iff, AreOutcomes, outcomes_of-AreOutcomes}

-- What the test run has of its evidence: one more ledger entry, whose result is PASS exactly where each
-- log has the exit code zero, and one outcome for each log.
pub record IsReported (host : Host) (items : Items) (c c' : ChainContext) : Type 0 where
  pub entry : LedgerEntry
  pub outcomes : List TestOutcome
  pub entries : c'.evidence.ledger.ledger_entries ≡ c.evidence.ledger.ledger_entries ++ entry ∷ []
  pub typed : entry.artifact_type ≡ ArtifactType.test
  pub judged : (entry.result ≡ LedgerResult.pass) ↔ AllZero items
  pub added : c'.test_outcomes ≡ c.test_outcomes ++ outcomes
  pub path : String
  pub told : AreOutcomes host path items outcomes

pass-ne-fail : LedgerResult.fail ≢ LedgerResult.pass
pass-ne-fail e = cc

judged_iff :
    (b : Bool) {r : LedgerResult}
    → r ≡ (if b then LedgerResult.pass else LedgerResult.fail)
    → (r ≡ LedgerResult.pass) ↔ (b ≡ true)
judged_iff true e = (λ p. refl, λ t. e)
judged_iff false e = (λ p. absurd (pass-ne-fail (sym e ∙ p)), λ t. cc t)

-- The result of a report of tests, and its context.
abbrev Reported : HandlerResult → ChainContext → ChainContext → Artifact → List TestOutcome → Type 0
Reported result c' d art outcomes =
    ◌≡◌ {A = HandlerResult × ChainContext}
      (
        ok_result (command_of "TestRunnerHandler") HandlerDecision.go_on (art.path ∷ []) [] end,
        record d { test_outcomes = d.test_outcomes ++ outcomes },
      )
      (result, c')

module _ (os : Platform) (host : Host) where
  pub report_tests-IsReported :
      (logs command : Value) (c : ChainContext) {result : HandlerResult} {c' : ChainContext}
      → report_tests os host logs command c ≡ some (result, c')
      → (result.status ≡ HandlerStatus.pass)
        × (items : Items) × (iterate logs ≡ some items)
        × IsReported host items c c'
  unfolding report_tests read_logs ok_result
  report_tests-IsReported logs command c {result} {c'} e = elim (Option-cases (iterate logs)) [
    | inl f ↦ ground arith
    | inr (items, f) ↦ elim (Option-cases (as_text command)) [
      | inl g ↦ ground arith
      | inr (line, g) ↦ elim (Option-cases (all_zero items)) [
        | inl h ↦ ground arith
        | inr (passes, h) ↦
            elim (Option-cases (
              record_artifact os
                (log_request (command_of "TestRunnerHandler") "test_output.log" (os.dumps logs)
                  ArtifactType.test line (if passes then LedgerResult.pass else LedgerResult.fail))
                c)) [
                  | inl k ↦ ground arith
                  | inr ((art, d), k) ↦
                      elim (Option-cases (outcomes_of os host line art.path items)) [
                        | inl m ↦ ground arith
                        | inr (outcomes, m) ↦
                            let made =
                              record_artifact-HasRecorded os (command_of "TestRunnerHandler")
                                "test_output.log" (os.dumps logs) ArtifactType.test line _ c k in
                            let told = outcomes_of-AreOutcomes os host line art.path items m in
                            let left : Reported result c' d art outcomes =
                              some_injective
                                (rw (f, g, h, k, m, report_tests, read_logs, ◌>>=◌) at e) in
                            (
                              sym (ap (λ (p : HandlerResult × ChainContext). p.0.status) left),
                              items,
                              f,
                              record {
                                entry = made.entry;
                                outcomes = outcomes;
                                entries =
                                    ap
                                      (λ (p : HandlerResult × ChainContext).
                                        p.1.evidence.ledger.ledger_entries)
                                      (sym left)
                                    ∙ made.entries;
                                typed = made.type_is;
                                judged =
                                    iff_trans (judged_iff passes made.result_is)
                                      (all_zero_iff items h);
                                added =
                                    ap (λ (p : HandlerResult × ChainContext). p.1.test_outcomes)
                                      (sym left)
                                    ∙ ap (λ outs. outs ++ outcomes) made.outcomes;
                                path = art.path;
                                told = told;
                              },
                            )
                      ]
                ]
      ]
    ]
  ]

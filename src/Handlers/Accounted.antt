-- ===== src/Handlers/Accounted.antt =====
-- What the test runner leaves behind, on every path.
use agent_analysis.Prelude.{
  false, ◌≡◌, ◌≢◌, sym, ◌∙◌, some, some_injective, arith, Option-cases, Bool-cases, inl, inr, ◌⊎◌,
  ◌>>=◌, if◌then◌else◌, Option,
}
use agent_analysis.Platform.{Platform}
use agent_analysis.Schemas.Json.{Value, Items, Fields, null, text, get_or, flag}
use agent_analysis.Schemas.Reading.{as_text, iterate}
use agent_analysis.Schemas.Chain.{ChainRequest, HandlerResult, HandlerStatus}
use agent_analysis.Chains.Context.{ChainContext}
use agent_analysis.Handlers.Base.{fail_result, skip_result}
use agent_analysis.Handlers.Host.{Host, Tree}
use agent_analysis.Handlers.Commands.{Evidence, gather_evidence}
use agent_analysis.Handlers.Reproduction.{settle_tests, run_tests}
use agent_analysis.Handlers.Gathered.{IsGathered, gather_evidence_iff}
use agent_analysis.Handlers.Reported.{IsReported, report_tests-IsReported}

-- The ledger, the artifacts and the outcomes are as they were.
pub record IsUntouched (c c' : ChainContext) : Type 0 where
  pub evidence : c'.evidence ≡ c.evidence
  pub artifacts : c'.artifacts ≡ c.artifacts
  pub outcomes : c'.test_outcomes ≡ c.test_outcomes

module _ (os : Platform) (host : Host) where
  -- The evidence of a test run, where tests apply.
  abbrev pub IsTested : Fields → ChainContext → Value → Value → Tree → Type 0
  IsTested meta c logs command left =
      (flag "tests_not_applicable" meta ≡ false)
      × IsGathered os host meta (get_or "test_outcomes" null meta) (text "python -m pytest")
          (get_or "test_commands" null meta) c.repo logs command left

  -- A test run with evidence.
  pub record IsAccounted (request : ChainRequest) (c c' : ChainContext) : Type 0 where
    pub logs : Value
    pub command : Value
    pub left : Tree
    pub tested : IsTested request.metadata c logs command left
    pub items : Items
    pub lists : iterate logs ≡ some items
    pub reported : IsReported host items c c'

  -- A test run without.
  pub record IsRefused (request : ChainRequest) (c c' : ChainContext) : Type 0 where
    pub untested :
        ((logs : Value) × (command : Value) × (left : Tree) × IsTested request.metadata c logs
            command left)
        → ⊥
    pub untouched : IsUntouched c c'

  -- The evidence that the handler gathers.
  abbrev test_evidence : ChainRequest → ChainContext → Option Evidence
  test_evidence request c =
      gather_evidence os host request request.metadata
        (get_or "test_outcomes" null request.metadata) (text "python -m pytest")
        (get_or "test_commands" null request.metadata) c.repo

  untested :
      (request : ChainRequest) (c : ChainContext) {ev : Evidence}
      → test_evidence request c ≡ some ev
      → ((logs command : Value) (left : Tree) → ev ≢ Evidence.gathered logs command left)
      → ((logs : Value) × (command : Value) × (left : Tree) × IsTested request.metadata c logs
            command left)
      → ⊥
  untested request c e other (logs, command, left, (applies, gathers)) = other logs command left (
      some_injective (
        sym e
        ∙ (gather_evidence_iff os host request request.metadata _ _ _ c.repo logs command left).1
            gathers))

  settle_tests-accounts :
      (request : ChainRequest) (c : ChainContext) (evidence : Evidence) {result : HandlerResult}
      {c' : ChainContext}
      → flag "tests_not_applicable" request.metadata ≡ false
      → test_evidence request c ≡ some evidence
      → settle_tests os host evidence c ≡ some (result, c')
      → ((result.status ≡ HandlerStatus.pass) × IsAccounted request c c')
        ⊎ ((result.status ≢ HandlerStatus.pass) × IsRefused request c c')
  unfolding settle_tests fail_result
  settle_tests-accounts request c Evidence.missing applies f e = inr (
    ground arith,
    record { untested = untested request c f (λ l k t. λ q. cc q); untouched = ground arith },
  )
  settle_tests-accounts request c (Evidence.refused rejected tree) applies f e = inr (
    ground arith,
    record { untested = untested request c f (λ l k t. λ q. cc q); untouched = ground arith },
  )
  settle_tests-accounts request c (Evidence.gathered logs command tree) applies f e =
      let (status, items, lists, r) =
        report_tests-IsReported os host logs command (record c { repo = tree }) e in
      inl (
        status,
        record {
          logs = logs;
          command = command;
          left = tree;
          tested = (
            applies,
            (gather_evidence_iff os host request request.metadata _ _ _ c.repo logs command tree).0
                f,
          );
          items = items;
          lists = lists;
          reported = record {
            entry = r.entry;
            outcomes = r.outcomes;
            entries = r.entries;
            typed = r.typed;
            judged = r.judged;
            added = r.added;
            path = r.path;
            told = r.told;
          };
        },
      )

  -- A run of the tests that returns passes where tests apply and there are logs: of the caller, or of the
  -- shell's run in order of commands each of which matches no forbidden pattern and, unless there is no
  -- allowlist, an allowed one. It then adds one TEST entry to the ledger, whose result is PASS exactly
  -- where each log has the exit code zero, and one outcome for each log, with the exit code of the log,
  -- or zero where the log names none. With no such evidence it does not pass, and the ledger, the
  -- artifacts and the outcomes are as they were.
  pub run_tests-accounts :
      (request : ChainRequest) (c : ChainContext) {result : HandlerResult} {c' : ChainContext}
      → run_tests os host request c ≡ some (result, c')
      → ((result.status ≡ HandlerStatus.pass) × IsAccounted request c c')
        ⊎ ((result.status ≢ HandlerStatus.pass) × IsRefused request c c')
  unfolding run_tests skip_result
  run_tests-accounts request c e =
      let meta = request.metadata in
      elim (Bool-cases (flag "tests_not_applicable" meta)) [
        | inl t ↦
            elim (Option-cases
              (as_text (get_or "tests_not_applicable_reason" (text "tests not applicable") meta))) [
                | inl f ↦ cc (rw (t, f, run_tests, if◌then◌else◌, ◌>>=◌) at e)
                | inr (reason, f) ↦
                    let made = rw (t, f, run_tests, if◌then◌else◌, ◌>>=◌) at e in
                    inr (
                      ground arith,
                      record {
                        untested = λ (logs, command, left, (applies, gathers)). cc (t, applies);
                        untouched = ground arith;
                      },
                    )
              ]
        | inr n ↦ elim (Option-cases (test_evidence request c)) [
          | inl f ↦ cc (rw (n, f, run_tests, if◌then◌else◌, ◌>>=◌) at e)
          | inr (evidence, f) ↦
              settle_tests-accounts request c evidence n f
                (rw (n, f, run_tests, if◌then◌else◌, ◌>>=◌) at e)
        ]
      ]

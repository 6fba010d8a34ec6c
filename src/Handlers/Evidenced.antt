-- ===== src/Handlers/Evidenced.antt =====
-- What the test runner, the reproduction of a failure and the build make of their evidence.
use agent_analysis.Prelude.{
  String, Bool, true, ◌≡◌, ◌↔◌, sym, ap, ◌∙◌, subst, Option, some, some_injective, arith,
  Option-cases, Bool-cases, inl, inr, ◌⊎◌, ◌>>=◌, if◌then◌else◌, not,
}
use agent_analysis.Platform.{Platform}
use agent_analysis.Schemas.Json.{Value, Items, Fields, null, text, nil, cons, get_or, truthy}
use agent_analysis.Schemas.Reading.{
  as_object, as_text, iterate, exit_code_of, is_failure, any_failed,
}
use agent_analysis.Schemas.Ledger.{ArtifactType, LedgerResult}
use agent_analysis.Schemas.Chain.{ChainRequest, HandlerResult, HandlerStatus}
use agent_analysis.Chains.Context.{ChainContext, record_artifact}
use agent_analysis.Handlers.Base.{Identity, ok_result, fail_result}
use agent_analysis.Handlers.Host.{Host, Tree}
use agent_analysis.Handlers.Commands.{Evidence, log_request, gather_evidence}
use agent_analysis.Handlers.Reproduction.{
  read_logs, report_reproduction, settle_reproduction, run_reproduction,
}
use agent_analysis.Handlers.Gathered.{IsGathered, gather_evidence_iff}
use agent_analysis.Handlers.Recorded.{record_artifact-HasRecorded}

-- Some log is a dict with an exit code that is neither zero nor absent.
abbrev pub HasFailure : Items → Type 0
HasFailure nil = ⊥
HasFailure (cons v vs) =
    ((code : Value) × (exit_code_of v ≡ some code) × (is_failure code ≡ true)) ⊎ HasFailure vs

-- Where the test over the logs does not raise, it tells whether one has failed.
any_failed_iff : (logs : Items) {b : Bool} → any_failed logs ≡ some b → (b ≡ true) ↔ HasFailure logs
unfolding any_failed
any_failed_iff nil e = (λ t. cc (some_injective e), λ h. absurd h)
any_failed_iff (cons v vs) {b} e = elim (Option-cases (exit_code_of v)) [
  | inl f ↦ cc (rw (f, ◌>>=◌) at e)
  | inr (code, f) ↦ elim (Bool-cases (is_failure code)) [
    | inl g ↦
        (λ t. inl (code, f, g), λ h. sym (some_injective (rw (f, ◌>>=◌, g, if◌then◌else◌) at e)))
    | inr g ↦
        let rest = any_failed_iff vs (rw (f, ◌>>=◌, g, if◌then◌else◌) at e) in
        (
          λ t. inr (rest.0 t),
          λ h. elim h [ inl (code', f', g') ↦ cc (f, f', g, g') | inr k ↦ rest.1 k ],
        )
  ]
]

pub gathered_logs :
    {l k m n : Value} {s t : Tree} → Evidence.gathered l m s ≡ Evidence.gathered k n t → l ≡ k
gathered_logs e = cc

module _ (os : Platform) (host : Host) where
  -- The evidence of a reproduction.
  abbrev reproduction_evidence : ChainRequest → ChainContext → Fields → Option Evidence
  reproduction_evidence request c fields =
      gather_evidence os host request fields (get_or "test_outcomes" null fields)
        (get_or "command" (text "python -m pytest") fields) (get_or "test_commands" null fields)
        c.repo

  -- What the evidence of a reproduction is.
  abbrev pub IsReproduction : ChainContext → Fields → Value → Value → Tree → Type 0
  IsReproduction c fields logs command left =
      IsGathered os host fields (get_or "test_outcomes" null fields)
        (get_or "command" (text "python -m pytest") fields) (get_or "test_commands" null fields)
        c.repo logs command left

  reproduction_evidence_iff :
      (request : ChainRequest) (c : ChainContext) (fields : Fields) (logs command : Value)
      (left : Tree)
      → (reproduction_evidence request c fields ≡ some (Evidence.gathered logs command left))
        ↔ IsReproduction c fields logs command left
  reproduction_evidence_iff request c fields logs command left =
      gather_evidence_iff os host request fields _ _ _ c.repo logs command left

  -- The caller supplies a reproduction with logs, or with commands that may be used and that the shell
  -- ran, of which one failed.
  pub record IsReproduced (c : ChainContext) (repro : Value) : Type 0 where
    pub given : truthy repro ≡ true
    pub fields : Fields
    pub is_object : as_object repro ≡ some fields
    pub logs : Value
    pub command : Value
    pub tree : Tree
    pub gathers : IsReproduction c fields logs command tree
    pub items : Items
    pub lists : iterate logs ≡ some items
    pub fails : HasFailure items

  -- The steps of a report that returns.
  report_reproduction-steps :
      (self : Identity) (name : String) (logs command : Value) (c : ChainContext)
      {result : HandlerResult} {c' : ChainContext}
      → report_reproduction os host self name logs command c ≡ some (result, c')
      → (items : Items) × (failed : Bool) × (iterate logs ≡ some items)
        × (any_failed items ≡ some failed)
        × (result.status ≡ (if failed then HandlerStatus.pass else HandlerStatus.fail))
        × (c'.test_outcomes ≡ c.test_outcomes)
  unfolding report_reproduction read_logs ok_result fail_result
  report_reproduction-steps self name logs command c e = elim (Option-cases (iterate logs)) [
    | inl f ↦ ground arith
    | inr (items, f) ↦ elim (Option-cases (as_text command)) [
      | inl g ↦ ground arith
      | inr (line, g) ↦ elim (Option-cases (any_failed items)) [
        | inl h ↦ ground arith
        | inr (failed, h) ↦
            let request =
              log_request self name (os.dumps logs) ArtifactType.test line
                (if failed then LedgerResult.fail else LedgerResult.pass) in
            elim (Option-cases (record_artifact os request c)) [
              | inl k ↦ ground arith
              | inr ((art, d), k) ↦
                  let made = record_artifact-HasRecorded os self name _ _ _ _ c k in
                  (items, failed, f, h, ground arith, ground (arith, made.outcomes))
            ]
      ]
    ]
  ]

  -- The evidence of a reproduction is what its parts say.
  reproduced_evidence :
      (request : ChainRequest) (c : ChainContext) (repro : Value) {fields : Fields} {ev : Evidence}
      → as_object repro ≡ some fields
      → reproduction_evidence request c fields ≡ some ev
      → (v : IsReproduced c repro) → ev ≡ Evidence.gathered v.logs v.command v.tree
  reproduced_evidence request c repro f g v = some_injective (
      sym g
      ∙ ap (reproduction_evidence request c) (some_injective (sym f ∙ v.is_object))
      ∙ (reproduction_evidence_iff request c v.fields v.logs v.command v.tree).1 v.gathers)

  report_reproduction-pass_iff :
      (self : Identity) (name : String) (logs command : Value) (c : ChainContext)
      {result : HandlerResult} {c' : ChainContext}
      → report_reproduction os host self name logs command c ≡ some (result, c')
      → ((result.status ≡ HandlerStatus.pass)
          ↔ ((items : Items) × (iterate logs ≡ some items) × HasFailure items))
        × (c'.test_outcomes ≡ c.test_outcomes)
  report_reproduction-pass_iff self name logs command c e =
      let (items, failed, lists, tests, status, kept) =
        report_reproduction-steps self name logs command c e in
      let told = any_failed_iff items tests in
      (
        (
          λ p. (items, lists, told.0 (ground arith)),
          λ (items', lists', h).
              let t = told.1 (subst HasFailure (some_injective (sym lists' ∙ lists)) h) in
              ground arith,
        ),
        kept,
      )

  -- A reproduction that returns passes exactly where the caller supplies logs, or commands each of which
  -- matches no forbidden pattern and, unless there is no allowlist, an allowed one, with the logs of the
  -- shell's run of them in order, and a log has an exit code that is neither zero nor absent; whatever
  -- it finds, the outcomes that the verifier's test gate reads stay as they were.
  pub run_reproduction-pass_iff :
      (self : Identity) (request : ChainRequest) (c : ChainContext) (repro : Value)
      (artifact_name reason : String) {result : HandlerResult} {c' : ChainContext}
      → run_reproduction os host self request c repro artifact_name reason ≡ some (result, c')
      → ((result.status ≡ HandlerStatus.pass) ↔ IsReproduced c repro)
        × (c'.test_outcomes ≡ c.test_outcomes)
  unfolding run_reproduction settle_reproduction fail_result
  run_reproduction-pass_iff self request c repro artifact_name reason e =
      elim (Bool-cases (truthy repro)) [
        | inr f ↦ ((λ p. ground arith, λ v. cc (f, v.given)), ground arith)
        | inl t ↦ elim (Option-cases (as_object repro)) [
          | inl f ↦ cc (rw (t, f, run_reproduction, if◌then◌else◌, not, ◌>>=◌) at e)
          | inr (fields, f) ↦ elim (Option-cases (reproduction_evidence request c fields)) [
            | inl g ↦ cc (rw (t, f, g, run_reproduction, if◌then◌else◌, not, ◌>>=◌) at e)
            | inr (Evidence.missing, g) ↦
                let made = rw (t, f, g, run_reproduction, if◌then◌else◌, not, ◌>>=◌) at e in
                (
                  (λ p. ground arith, λ v. cc (reproduced_evidence request c repro f g v)),
                  ground arith,
                )
            | inr (Evidence.refused rejected tree, g) ↦
                let made = rw (t, f, g, run_reproduction, if◌then◌else◌, not, ◌>>=◌) at e in
                (
                  (λ p. ground arith, λ v. cc (reproduced_evidence request c repro f g v)),
                  ground arith,
                )
            | inr (Evidence.gathered logs command tree, g) ↦
                let told =
                  report_reproduction-pass_iff self artifact_name logs command
                    (record c { repo = tree })
                    (rw (t, f, g, run_reproduction, if◌then◌else◌, not, ◌>>=◌) at e) in
                (
                  (
                    λ p.
                        let (items, lists, fails) = told.0.0 p in
                        record {
                          given = t;
                          fields = fields;
                          is_object = f;
                          logs = logs;
                          command = command;
                          tree = tree;
                          gathers =
                              (reproduction_evidence_iff request c fields logs command tree).0 g;
                          items = items;
                          lists = lists;
                          fails = fails;
                        },
                    λ v. told.0.1 (
                      v.items,
                      subst (λ l. iterate l ≡ some v.items)
                          (sym (gathered_logs (reproduced_evidence request c repro f g v))) v.lists,
                      v.fails,
                    ),
                  ),
                  told.1,
                )
          ]
        ]
      ]

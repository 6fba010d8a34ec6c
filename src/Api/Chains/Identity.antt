-- ===== src/Api/Chains/Identity.antt =====
-- Under whose identity a chain executes, and what it leaves of the record.
use agent_analysis.Prelude.{
  ℕ, ◌+◌, String, true, not, ◌≡◌, refl, sym, ap, ◌∙◌, subst, List, [], ◌∷◌, ◌++◌, none, some, ◌==◌,
  ◌+s◌, ◌&&◌, length, arith, Option-cases, Bool-cases, inl, inr, ◌⊎◌, some_injective, is_nil,
}
use agent_analysis.Platform.{Platform}
use agent_analysis.Schemas.Chain.{ChainRequest, canonical_violations, ChainExecutionResult}
use agent_analysis.Chains.Executor.{finish}
use agent_analysis.Chains.Executor.Runs.{execute-runs}
use agent_analysis.Handlers.Base.{HandlerRegistry}
use agent_analysis.Runtime.Workspace.{
  Paths, Checked, accepted, refused, RunAttempt, WorkspaceAllocation, resolve, allocate,
}
use agent_analysis.Api.Records.{RunRecord, Repository, get, get-save-same}
use agent_analysis.Api.Runs.{Reply, ok, http_error, Detail}
use agent_analysis.Api.Chains.{
  refused_result, identity_mismatch, bind_identity, RuntimeSettings, source_path, admit,
  with_attempt, Disk, execute_attempt, attempt_run, execute_chain,
}

abbrev pub Reply-cases {ℓ} :
    {A : Type ℓ} (r : Reply A)
    → ((a : A) × (r ≡ Reply.ok a))
      ⊎ ((code : ℕ) × (detail : Detail) × (r ≡ Reply.http_error code detail))
Reply-cases (ok a) = inl (a, refl)
Reply-cases (http_error code detail) = inr (code, detail, refl)

abbrev Checked-cases {ℓ} :
    {A : Type ℓ} (r : Checked A)
    → ((a : A) × (r ≡ Checked.accepted a)) ⊎ ((why : String) × (r ≡ Checked.refused why))
Checked-cases (accepted a) = inl (a, refl)
Checked-cases (refused why) = inr (why, refl)

is_nil→eq {ℓ} : {A : Type ℓ} (xs : List A) → is_nil xs ≡ true → xs ≡ []
is_nil→eq [] e = refl
is_nil→eq (x ∷ xs) e = cc

ok_injective {ℓ} : {A : Type ℓ} {a b : A} → Reply.ok a ≡ Reply.ok b → a ≡ b
ok_injective {a = a} e = ap (λ r. elim r [ ok x ↦ x | http_error code detail ↦ a ]) e

accepted_injective {ℓ} : {A : Type ℓ} {a b : A} → Checked.accepted a ≡ Checked.accepted b → a ≡ b
accepted_injective {a = a} e = ap (λ c. elim c [ accepted x ↦ x | refused why ↦ a ]) e

-- The request that goes on has the run's id, and asks for nothing that the hard rules forbid.
pub admit-bound :
    (settings : RuntimeSettings) (run_id : String) (r : RunRecord) (request : ChainRequest)
    (execution_path : String) {bound : ChainRequest}
    → admit settings run_id r request execution_path ≡ Reply.ok bound
    → (bound.run_id ≡ run_id) × (canonical_violations bound ≡ [])
unfolding admit bind_identity
admit-bound settings run_id r request execution_path {bound} e =
    elim (Option-cases (identity_mismatch run_id r request)) [
      | inr (why, f) ↦ cc (rw (f, admit) at e)
      | inl f ↦
          let violations = canonical_violations (bind_identity run_id r request) in
          elim (Bool-cases (is_nil violations)) [
            | inr g ↦ cc (rw (f, g, admit) at e)
            | inl g ↦ elim (Bool-cases (settings.production_mode && not (execution_path == ""))) [
              | inl p ↦ cc (rw (f, g, p, admit) at e)
              | inr p ↦
                  let same : bind_identity run_id r request ≡ bound =
                    ok_injective (rw (f, g, p, admit) at e) in
                  subst (λ b. (b.run_id ≡ run_id) × (canonical_violations b ≡ [])) same
                    (refl, is_nil→eq violations g)
            ]
          ]
    ]

module _ (os : Platform) (paths : Paths) where
  -- The record after a run: as it was, or with one attempt more.
  pub record IsAttempted (r v : RunRecord) : Type 0 where
    pub same_id : v.run_id ≡ r.run_id
    pub same_report : v.verifier_report ≡ r.verifier_report
    pub same_manifest : v.manifest ≡ r.manifest
    pub attempts :
        (v.attempts ≡ r.attempts)
        ⊎ ((a : RunAttempt) × (v.attempts ≡ r.attempts ++ a ∷ [])
            × (a.attempt_number ≡ length r.attempts + 1))

  allocate-number :
      (root run_id : String) (attempts : List RunAttempt) (requested now : String)
      {a : WorkspaceAllocation}
      → allocate paths root run_id attempts requested now ≡ Checked.accepted a
      → a.attempt.attempt_number ≡ length attempts + 1
  unfolding allocate
  allocate-number root run_id attempts requested now {a} e =
      elim (Checked-cases (resolve paths root requested)) [
        | inr (why, f) ↦ cc (rw (f, allocate) at e)
        | inl (p, f) ↦ ground arith
      ]

  refused_result-run_id :
      (run_id : String) (bound : ChainRequest) (why : String)
      → bound.run_id ≡ run_id
      → (refused_result run_id bound why).run_id ≡ run_id
  unfolding refused_result
  refused_result-run_id run_id bound why same = ground arith

  execute_attempt-run_id :
      (registry : HandlerRegistry) (settings : RuntimeSettings) (disk : Disk) (bound : ChainRequest)
      (a : WorkspaceAllocation) {result : ChainExecutionResult}
      → execute_attempt os paths registry settings disk bound a ≡ Checked.accepted (some result)
      → result.run_id ≡ bound.run_id
  unfolding execute_attempt finish
  execute_attempt-run_id registry settings disk bound a {result} e =
      elim (Checked-cases (resolve paths settings.workspace_root a.execution_path)) [
        | inr (why, f) ↦ cc (rw (f, execute_attempt) at e)
        | inl (p, f) ↦
            let (chain, r, resolved, ran, made) =
              execute-runs os registry bound _ _ none none
                (accepted_injective (rw (f, execute_attempt) at e)) in
            ap (λ x. x.run_id) made
      ]

  pub attempt_run_lem :
      (registry : HandlerRegistry) (settings : RuntimeSettings) (disk : Disk) (run_id : String)
      (r : RunRecord) (bound : ChainRequest) (requested now : String)
      {result : ChainExecutionResult} {v : RunRecord}
      → bound.run_id ≡ run_id
      → attempt_run os paths registry settings disk run_id r bound requested now ≡ some (result, v)
      → (result.run_id ≡ run_id) × IsAttempted r v
  unfolding attempt_run with_attempt
  attempt_run_lem registry settings disk run_id r bound requested now {result} {v} same e =
      elim (Checked-cases
        (allocate paths settings.workspace_root r.run_id r.attempts requested now)) [
          | inr (why, f) ↦
              let made = some_injective (rw (f, attempt_run) at e) in
              subst (λ (q, w). (q.run_id ≡ run_id) × IsAttempted r w) made
                (refused_result-run_id run_id bound ("workspace policy: " +s why) same, unchanged)
          | inl (a, f) ↦
              elim (Checked-cases (execute_attempt os paths registry settings disk bound a)) [
                | inr (why, g) ↦
                    subst (λ (q, w). (q.run_id ≡ run_id) × IsAttempted r w)
                      (some_injective (rw (f, g, attempt_run) at e))
                      (
                        refused_result-run_id run_id bound ("workspace policy: " +s why) same,
                        unchanged,
                      )
                | inl (none, g) ↦ cc (rw (f, g, attempt_run) at e)
                | inl (some q, g) ↦
                    subst (λ (p, w). (p.run_id ≡ run_id) × IsAttempted r w)
                      (some_injective (rw (f, g, attempt_run) at e))
                      (
                        execute_attempt-run_id registry settings disk bound a g ∙ same,
                        record {
                          same_id = refl;
                          same_report = refl;
                          same_manifest = refl;
                          attempts = inr (
                            _,
                            refl,
                            allocate-number settings.workspace_root r.run_id r.attempts requested
                                now f,
                          );
                        },
                      )
              ]
        ]
    where
      unchanged : IsAttempted r r
      unchanged = record {
        same_id = refl;
        same_report = refl;
        same_manifest = refl;
        attempts = inl refl;
      }

  -- An execution that replies with a result ran under the id of its URL: the result has that id. The
  -- run is then in state EXECUTE_CHAIN with that result, its verifier report and its manifest are as
  -- they were, and it has the attempts that it had, or one more with the next number.
  pub execute_chain-run_id :
      (registry : HandlerRegistry) (settings : RuntimeSettings) (disk : Disk) (run_id : String)
      (request : ChainRequest) (execution_path now : String) (repo : Repository) (r : RunRecord)
      {result : ChainExecutionResult}
      → get run_id repo ≡ some r
      → (execute_chain os paths registry settings disk run_id request execution_path now repo).0
        ≡ some (Reply.ok result)
      → (result.run_id ≡ run_id)
        × ((v : RunRecord) × (get r.run_id
                (execute_chain os paths registry settings disk run_id request execution_path now
                  repo).1
              ≡ some v)
            × (v.state ≡ "EXECUTE_CHAIN")
            × (v.chain_execution_result ≡ some result)
            × IsAttempted r v)
  unfolding execute_chain
  execute_chain-run_id registry settings disk run_id request execution_path now repo r {result} e
        h =
      elim (Reply-cases (admit settings run_id r request execution_path)) [
        | inr (code, detail, f) ↦ cc (rw (e, f, execute_chain) at h)
        | inl (bound, f) ↦
            elim (Option-cases (
              attempt_run os paths registry settings disk run_id r bound
                (source_path settings execution_path) now)) [
                  | inl g ↦ cc (rw (e, f, g, execute_chain) at h)
                  | inr ((q, w), g) ↦
                      let (named, attempted) =
                        attempt_run_lem registry settings disk run_id r bound
                          (source_path settings execution_path) now
                          (admit-bound settings run_id r request execution_path f).0 g in
                      let same : q ≡ result =
                        ok_injective (some_injective (rw (e, f, g, execute_chain) at h)) in
                      rw (e, f, g, execute_chain)
                        (
                          ap (λ x. x.run_id) (sym same) ∙ named,
                          (
                            record w { chain_execution_result = some q; state = "EXECUTE_CHAIN" },
                            get-save-same _ repo r.run_id attempted.same_id,
                            refl,
                            ap some same,
                            record {
                              same_id = attempted.same_id;
                              same_report = attempted.same_report;
                              same_manifest = attempted.same_manifest;
                              attempts = attempted.attempts;
                            },
                          ),
                        )
                ]
      ]

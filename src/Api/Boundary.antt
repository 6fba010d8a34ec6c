-- ===== src/Api/Boundary.antt =====
-- What holds of every record that the API can come to, whatever is sent to it in whatever order.
use agent_analysis.Prelude.{
  String, true, ◌≡◌, ◌≢◌, sym, ap, ◌∙◌, subst, List, [], ◌∷◌, some, All, arith, Option-cases,
  Bool-cases, inl, inr, some_injective,
}
use agent_analysis.Platform.{Platform}
use agent_analysis.Schemas.Constants.{Decision, is_pass}
use agent_analysis.Schemas.GateResult.{passed}
use agent_analysis.Schemas.Ledger.{EvidenceLedger}
use agent_analysis.Schemas.Manifest.{RunManifest}
use agent_analysis.Schemas.Reviews.{VerifierReport}
use agent_analysis.Schemas.Chain.{ChainRequest}
use agent_analysis.Gates.Manifest.{manifest_gate}
use agent_analysis.Gates.Release.{pr_gate}
use agent_analysis.Handlers.Base.{HandlerRegistry}
use agent_analysis.Runtime.Workspace.{Paths}
use agent_analysis.Api.Records.{RunRecord, Repository, get, save-All, get→All}
use agent_analysis.Api.Runs.{
  create_run, verify_run, verified, create_or_update_pr, decision_of, pull_request_of,
}
use agent_analysis.Api.Runs.Honoured.{effective_iff}
use agent_analysis.Api.Plans.{plan_chain}
use agent_analysis.Api.Chains.{
  RuntimeSettings, Disk, execute_chain, admit, attempt_run, source_path,
}
use agent_analysis.Api.Chains.Identity.{Reply-cases, admit-bound, attempt_run_lem}

-- A request that changes the repository, with what the environment adds to it.
pub data Request : Type 0 where
  create : String → RunManifest → Request
  verify : String → VerifierReport → EvidenceLedger → Request
  pull_request : String → String → String → Request
  plan : String → ChainRequest → Request
  execute_run :
      HandlerRegistry → RuntimeSettings → Disk → String → ChainRequest → String → String → Request

-- A PASS is of a verifier other than the coding agent, a run at the PR gate has a PASS, and the
-- manifest is one that its gate admits.
pub record IsHonest (r : RunRecord) : Type 0 where
  pub admitted : passed (manifest_gate r.manifest) ≡ true
  pub independent :
      (report : VerifierReport)
      → r.verifier_report ≡ some report
      → report.decision ≡ Decision.pass
      → report.coding_agent_run_id ≢ ""
      → report.coding_agent_run_id ≢ report.verifier_run_id
  pub gated : r.state ≡ "PR_GATE" → decision_of r ≡ Decision.pass

module _ (os : Platform) (paths : Paths) where
  abbrev pub serve : Request → Repository → Repository
  serve (Request.create fresh manifest) repo = (create_run fresh manifest repo).1
  serve (Request.verify run_id report ledger) repo = (verify_run run_id report ledger repo).1
  serve (Request.pull_request run_id url reason) repo =
      (create_or_update_pr run_id url reason repo).1
  serve (Request.plan run_id request) repo = (plan_chain run_id request repo).1
  serve (Request.execute_run registry settings disk run_id request path now) repo =
      (execute_chain os paths registry settings disk run_id request path now repo).1

  -- The requests of a session, the first one first.
  abbrev pub serve_all : List Request → Repository → Repository
  serve_all [] repo = repo
  serve_all (q ∷ qs) repo = serve_all qs (serve q repo)

  create_run-IsHonest :
      (fresh : String) (manifest : RunManifest) (repo : Repository)
      → All IsHonest repo
      → All IsHonest (create_run fresh manifest repo).1
  unfolding create_run decision_of
  create_run-IsHonest fresh manifest repo h = elim (Bool-cases (passed (manifest_gate manifest))) [
    | inr f ↦ rw (f, create_run) h
    | inl t ↦
        rw (t, create_run)
          (save-All IsHonest _ repo
            (record { admitted = t; independent = λ report e. cc; gated = λ e. cc }) h)
  ]

  verify_run-IsHonest :
      (run_id : String) (report : VerifierReport) (ledger : EvidenceLedger) (repo : Repository)
      → All IsHonest repo
      → All IsHonest (verify_run run_id report ledger repo).1
  unfolding verify_run verified decision_of
  verify_run-IsHonest run_id report ledger repo h = elim (Option-cases (get run_id repo)) [
    | inl e ↦ rw (e, verify_run) h
    | inr (r, e) ↦
        rw (e, verify_run)
          (save-All IsHonest _ repo
            (record {
              admitted = (get→All IsHonest run_id repo h e).admitted;
              independent = λ v q p n.
                  let same = some_injective q in
                  let honoured =
                    (effective_iff report ledger r.run_id).0 (ap (λ x. x.decision) same ∙ p) in
                  subst (λ x. x.coding_agent_run_id ≢ x.verifier_run_id) same
                    (honoured.independent
                      (λ z. n (ap (λ x. x.coding_agent_run_id) (sym same) ∙ z)));
              gated = λ q. cc;
            })
            h)
  ]

  create_or_update_pr-IsHonest :
      (run_id url reason : String) (repo : Repository)
      → All IsHonest repo
      → All IsHonest (create_or_update_pr run_id url reason repo).1
  unfolding create_or_update_pr decision_of
  create_or_update_pr-IsHonest run_id url reason repo h = elim (Option-cases (get run_id repo)) [
    | inl e ↦ rw (e, create_or_update_pr) h
    | inr (r, e) ↦ elim (Bool-cases (is_pass (decision_of r))) [
      | inr f ↦ rw (e, f, create_or_update_pr) h
      | inl t ↦ elim (Bool-cases (passed (pr_gate (pull_request_of r url reason)))) [
        | inr g ↦ rw (e, t, g, create_or_update_pr) h
        | inl g ↦
            let honest = get→All IsHonest run_id repo h e in
            rw (e, t, g, create_or_update_pr)
              (save-All IsHonest _ repo
                (record {
                  admitted = honest.admitted;
                  independent = honest.independent;
                  gated = λ q. ground arith;
                })
                h)
      ]
    ]
  ]

  plan_chain-IsHonest :
      (run_id : String) (request : ChainRequest) (repo : Repository)
      → All IsHonest repo
      → All IsHonest (plan_chain run_id request repo).1
  unfolding plan_chain decision_of
  plan_chain-IsHonest run_id request repo h = elim (Option-cases (get run_id repo)) [
    | inl e ↦ rw (e, plan_chain) h
    | inr (r, e) ↦
        let honest = get→All IsHonest run_id repo h e in
        rw (e, plan_chain)
          (save-All IsHonest _ repo
            (record {
              admitted = honest.admitted;
              independent = honest.independent;
              gated = honest.gated;
            })
            h)
  ]

  execute_chain-IsHonest :
      (registry : HandlerRegistry) (settings : RuntimeSettings) (disk : Disk) (run_id : String)
      (request : ChainRequest) (path now : String) (repo : Repository)
      → All IsHonest repo
      → All IsHonest (execute_chain os paths registry settings disk run_id request path now repo).1
  unfolding execute_chain decision_of
  execute_chain-IsHonest registry settings disk run_id request path now repo h =
      elim (Option-cases (get run_id repo)) [
        | inl e ↦ rw (e, execute_chain) h
        | inr (r, e) ↦ elim (Reply-cases (admit settings run_id r request path)) [
          | inr (code, detail, f) ↦ rw (e, f, execute_chain) h
          | inl (bound, f) ↦
              elim (Option-cases (
                attempt_run os paths registry settings disk run_id r bound
                  (source_path settings path) now)) [
                    | inl g ↦ rw (e, f, g, execute_chain) h
                    | inr ((q, w), g) ↦
                        let honest = get→All IsHonest run_id repo h e in
                        let (named, attempted) =
                          attempt_run_lem os paths registry settings disk run_id r bound
                            (source_path settings path) now
                            (admit-bound settings run_id r request path f).0 g in
                        rw (e, f, g, execute_chain)
                          (save-All IsHonest _ repo
                            (record {
                              admitted =
                                  ap (λ m. passed (manifest_gate m)) attempted.same_manifest
                                  ∙ honest.admitted;
                              independent = λ report z.
                                  honest.independent report (sym attempted.same_report ∙ z);
                              gated = λ z. cc;
                            })
                            h)
                  ]
        ]
      ]

  serve-IsHonest :
      (q : Request) (repo : Repository) → All IsHonest repo → All IsHonest (serve q repo)
  serve-IsHonest (Request.create fresh manifest) repo h = create_run-IsHonest fresh manifest repo h
  serve-IsHonest (Request.verify run_id report ledger) repo h =
      verify_run-IsHonest run_id report ledger repo h
  serve-IsHonest (Request.pull_request run_id url reason) repo h =
      create_or_update_pr-IsHonest run_id url reason repo h
  serve-IsHonest (Request.plan run_id request) repo h = plan_chain-IsHonest run_id request repo h
  serve-IsHonest (Request.execute_run registry settings disk run_id request path now) repo h =
      execute_chain-IsHonest registry settings disk run_id request path now repo h

  -- After any sequence of requests to the API, from records that are honest (none, at the start),
  -- every record is: its manifest passes the manifest gate, a PASS in its verifier report is of a
  -- verifier run other than the named coding run, and a run at the PR gate has a PASS.
  pub serve_all-IsHonest :
      (qs : List Request) (repo : Repository) → All IsHonest repo → All IsHonest (serve_all qs repo)
  serve_all-IsHonest [] repo h = h
  serve_all-IsHonest (q ∷ qs) repo h =
      serve_all-IsHonest qs (serve q repo) (serve-IsHonest q repo h)

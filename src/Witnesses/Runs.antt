-- ===== src/Witnesses/Runs.antt =====
-- The API, the workspace and the verifiers, on concrete data.
use agent_analysis.Prelude.{
  basename, slashes, ◌↔◌, ◌≡◌, ◌≢◌, refl, String, false, List, [], ◌∷◌, Option, none, some, All,
  map,
}
use agent_analysis.Schemas.Constants.{Decision}
use agent_analysis.Schemas.Chain.{HandlerStatus, HandlerResult}
use agent_analysis.Schemas.GateResult.{passed, of}
use agent_analysis.Schemas.Ledger.{artifact_type_value}
use agent_analysis.Gates.Manifest.{manifest_gate, manifest_checks}
use agent_analysis.Gates.Release.{
  no_self_certification_gate, certification_checks, pr_gate, pr_checks,
}
use agent_analysis.Gates.Evidence.{
  evidence_gate, ledger_checks, entries_reasons, entry_checks, missing_types, present_types,
  remember, entry_label,
}
use agent_analysis.Runtime.Workspace.{Checked, resolve}
use agent_analysis.Runtime.Workspace.Accepts.{IsAcceptable, resolve_accepts_iff}
use agent_analysis.Schemas.Manifest.{RunManifest}
use agent_analysis.Api.Records.{RunRecord, get, save}
use agent_analysis.Api.Runs.{
  Reply, new_record, create_run, verify_run, VerifyReply, create_or_update_pr, PrReply, decision_of,
  certification_of, certify, effective_decision, pull_request_of, verified,
}
use agent_analysis.Api.Runs.Honoured.{IsVerified, verify_run_honoured, create_or_update_pr_iff}
use agent_analysis.Api.Boundary.{Request, IsHonest, serve_all, serve_all-IsHonest}
use agent_analysis.Chains.Context.{ChainContext, record_artifact}
use agent_analysis.Chains.Executor.{start}
use agent_analysis.Handlers.Verification.{
  verifier_of, report_verdict, verify_analysis, verify_implementation,
}
use agent_analysis.Storage.ArtifactStore.{write}
use agent_analysis.Storage.EvidenceWriter.{append, append_artifact}
use agent_analysis.Handlers.Base.{skip_result}
use agent_analysis.Handlers.Certified.{
  IsVerifiedAnalysis, IsVerifiedChange, verify_analysis-pass_iff, verify_implementation-pass_iff,
}
use agent_analysis.Witnesses.Samples.{os, paths, manifest, report, ledger, request}

resolve_accepts_iff_example :
    (resolve paths "/srv" "/srv/app" ≡ Checked.accepted "/srv/app")
    ↔ IsAcceptable paths "/srv" "/srv/app" "/srv/app"
resolve_accepts_iff_example = resolve_accepts_iff paths "/srv" "/srv/app" "/srv/app"

abbrev first : RunRecord
first = new_record "R1" manifest

registered : get "R1" (first ∷ []) ≡ some first
unfolding get
registered = refl

verify_run_honoured_example :
    (reply : VerifyReply) × (v : RunRecord) × ((verify_run "R1" report ledger (first ∷ [])).0
      ≡ Reply.ok reply)
    × (get "R1" (verify_run "R1" report ledger (first ∷ [])).1 ≡ some v)
    × IsVerified report ledger first v reply
verify_run_honoured_example = verify_run_honoured "R1" report ledger (first ∷ []) first registered

abbrev passing : RunRecord
passing = record first { verifier_report = some report; state = "VERIFY" }

registered_passing : get "R1" (passing ∷ []) ≡ some passing
unfolding get
registered_passing = refl

create_or_update_pr_iff_example :
    ((reply : PrReply) × ((create_or_update_pr "R1" "https://pr/1" "" (passing ∷ [])).0
        ≡ Reply.ok reply))
    ↔ ((decision_of passing ≡ Decision.pass)
        × (passing.manifest.auto_merge ≡ false)
        × (passing.manifest.auto_deploy ≡ false)
        × (◌≡◌ {A = String} "https://pr/1" "" → ◌≢◌ {A = String} "" ""))
create_or_update_pr_iff_example =
    create_or_update_pr_iff "R1" "https://pr/1" "" (passing ∷ []) passing registered_passing

-- A manifest that its gate admits, which declares no models.
abbrev admitted : RunManifest
admitted = record manifest { models = [] }

-- A session: a run is created, a PASS is reported, and its pull request is asked for.
abbrev session : List Request
session =
    Request.create "f" admitted
    ∷ Request.verify "R1" report ledger
    ∷ Request.pull_request "R1" "https://pr/1" ""
    ∷ []

serve_all-IsHonest_example : All IsHonest (serve_all os paths session [])
serve_all-IsHonest_example = serve_all-IsHonest os paths session [] tt

-- The session leaves the run at the PR gate, with a PASS of its verifier.
session_left :
    (map (λ (r : RunRecord). r.state) (serve_all os paths session []) ≡ "PR_GATE" ∷ [])
    × (map decision_of (serve_all os paths session []) ≡ Decision.pass ∷ [])
unfolding create_run verify_run create_or_update_pr get save passed of manifest_gate manifest_checks
    no_self_certification_gate certification_checks evidence_gate ledger_checks entries_reasons
    entry_checks missing_types present_types remember entry_label basename slashes pr_gate pr_checks
    certification_of certify decision_of effective_decision pull_request_of verified
    artifact_type_value
session_left = (refl, refl)

-- The context of a run that has just started.
abbrev context : ChainContext
context =
    (start os request (record { root = "/art"; attempt_id = none; files = [] }) none none
      none).context

-- What stands for a result that is not there.
abbrev no_result : HandlerResult × ChainContext
no_result = (skip_result (verifier_of "") "", context)

abbrev or_else {ℓ} : {A : Type ℓ} → A → Option A → A
or_else a none = a
or_else a (some b) = b

abbrev analysis_result : HandlerResult × ChainContext
analysis_result = or_else no_result (verify_analysis os request context)

abbrev change_result : HandlerResult × ChainContext
change_result = or_else no_result (verify_implementation os request context)

analysis_verified : verify_analysis os request context ≡ some analysis_result
unfolding verify_analysis report_verdict record_artifact append_artifact append write
analysis_verified = refl

change_verified : verify_implementation os request context ≡ some change_result
unfolding verify_implementation report_verdict record_artifact append_artifact append write
change_verified = refl

verify_analysis-pass_iff_example :
    (analysis_result.0.status ≡ HandlerStatus.pass) ↔ IsVerifiedAnalysis os context
verify_analysis-pass_iff_example = verify_analysis-pass_iff os request context analysis_verified

verify_implementation-pass_iff_example :
    (change_result.0.status ≡ HandlerStatus.pass) ↔ IsVerifiedChange os request context
verify_implementation-pass_iff_example =
    verify_implementation-pass_iff os request context change_verified

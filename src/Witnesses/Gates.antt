-- ===== src/Witnesses/Gates.antt =====
-- The gates and the ledger on concrete data.
use agent_analysis.Prelude.{
  ◌↔◌, ◌≡◌, ◌≢◌, ◌+◌, refl, String, true, [], ◌∷◌, none, some, Memᴰ, All, basename,
}
use agent_analysis.Schemas.Constants.{RunType}
use agent_analysis.Schemas.GateResult.{passed}
use agent_analysis.Schemas.Ledger.{ArtifactType, LedgerResult}
use agent_analysis.Gates.ModelPolicy.{model_policy_gate}
use agent_analysis.Gates.ModelPolicy.Admits.{IsUnderPolicy, model_policy_gate-passed_iff}
use agent_analysis.Gates.Manifest.{manifest_gate}
use agent_analysis.Gates.Manifest.Admits.{IsAdmissible, manifest_gate-passed_iff}
use agent_analysis.Gates.Scrum.{scrum_gate}
use agent_analysis.Gates.Scrum.Admits.{IsMapped, scrum_gate-passed_iff}
use agent_analysis.Gates.Strategic.{strategic_programming_gate}
use agent_analysis.Gates.Strategic.Admits.{IsContained, strategic_programming_gate-passed_iff}
use agent_analysis.Gates.Tests.{TestOutcome, test_gate}
use agent_analysis.Gates.Tests.Admits.{IsSettled, test_gate-passed_iff}
use agent_analysis.Gates.Evidence.{evidence_gate, present_types}
use agent_analysis.Gates.Evidence.Supports.{Supports, evidence_gate-passed_iff}
use agent_analysis.Storage.EvidenceWriter.{
  EvidenceLedgerWriter, AppendRequest, new_writer, append, new_entry,
}
use agent_analysis.Storage.EvidenceWriter.Written.{Written, IsClean, Written-ledger-passed_iff}
use agent_analysis.Witnesses.Samples.{manifest, mapping, review, outcome, ledger}

has_models : manifest.models ≢ []
has_models e = cc

model_policy_gate-passed_iff_example :
    (passed (model_policy_gate manifest) ≡ true) ↔ IsUnderPolicy manifest
model_policy_gate-passed_iff_example = model_policy_gate-passed_iff manifest has_models

manifest_gate-passed_iff_example :
    (passed (manifest_gate manifest) ≡ true)
    ↔ (IsAdmissible manifest × (manifest.models ≢ [] → IsUnderPolicy manifest))
manifest_gate-passed_iff_example = manifest_gate-passed_iff manifest

scrum_gate-passed_iff_example :
    (passed (scrum_gate mapping (some "1")) ≡ true) ↔ IsMapped mapping (some "1")
scrum_gate-passed_iff_example = scrum_gate-passed_iff mapping (some "1")

strategic_programming_gate-passed_iff_example :
    (passed (strategic_programming_gate review) ≡ true) ↔ IsContained review
strategic_programming_gate-passed_iff_example = strategic_programming_gate-passed_iff review

test_gate-passed_iff_example :
    (passed (test_gate (outcome ∷ []) RunType.implementation true) ≡ true) ↔ (
      (true ≡ true
        → RunType.implementation ≡ RunType.implementation
        → (o : TestOutcome) × Memᴰ o (outcome ∷ []) × (o.ran ≡ true))
      × ((o : TestOutcome) → Memᴰ o (outcome ∷ []) → IsSettled o))
test_gate-passed_iff_example = test_gate-passed_iff (outcome ∷ []) RunType.implementation true

evidence_gate-passed_iff_example :
    (passed (evidence_gate ledger "R1" "T1" ("DIFF" ∷ [])) ≡ true)
    ↔ Supports ledger "R1" "T1" ("DIFF" ∷ [])
evidence_gate-passed_iff_example = evidence_gate-passed_iff ledger "R1" "T1" ("DIFF" ∷ [])

abbrev append_request : AppendRequest
append_request = record {
  timestamp = "0";
  artifact_type = ArtifactType.diff;
  artifact_path = "R1/diff.patch";
  hash = "h1";
  command = "git diff";
  result = LedgerResult.pass;
  recorded_by = "executor";
}

abbrev writer : EvidenceLedgerWriter
writer = new_writer "T1" "R1"

abbrev written : EvidenceLedgerWriter
written = elim (append writer append_request) [ none ↦ writer | some (w, e) ↦ w ]

appends :
    append writer append_request ≡ some (written, new_entry (writer.counter + 1) append_request)
unfolding append
appends = refl

named_task : ◌≢◌ {A = String} "T1" ""
named_task e = cc

named_run : ◌≢◌ {A = String} "R1" ""
named_run e = cc

written-IsClean : All IsClean written.ledger.ledger_entries
unfolding append new_entry new_writer basename
written-IsClean =
    (record { no_summary = λ e. cc; no_raw_output = λ e. cc; captured = λ h e. cc }, tt)

Written-ledger-passed_iff_example :
    (passed (evidence_gate written.ledger "R1" "T1" ("DIFF" ∷ [])) ≡ true)
    ↔ ((t : String) → Memᴰ t ("DIFF" ∷ []) → Memᴰ t (present_types written.ledger.ledger_entries))
Written-ledger-passed_iff_example =
    Written-ledger-passed_iff "T1" "R1" written ("DIFF" ∷ [])
      (Written.appended Written.opened append_request appends) named_task named_run written-IsClean

-- ===== src/Storage/EvidenceWriter.antt =====
-- The append-only evidence ledger writer (backend/app/storage/evidence_writer.py). `timestamp` is
-- what `_utcnow()` returns in the call.
pub mod Written
use agent_analysis.Prelude.{
  ℕ, ◌+◌, String, false, List, [], ◌∷◌, ◌++◌, Option, none, some, if◌then◌else◌, ◌==◌, ◌+s◌,
  show_padded4,
}
use agent_analysis.Schemas.Constants.{Decision}
use agent_analysis.Schemas.Ledger.{
  ArtifactType, LedgerResult, Artifact, LedgerEntry, EvidenceLedger,
}

pub record EvidenceLedgerWriter : Type 0 where
  pub ledger : EvidenceLedger
  pub counter : ℕ

-- EvidenceLedgerWriter(task_id=…, run_id=…)
unfoldable pub new_writer : String → String → EvidenceLedgerWriter
new_writer task_id run_id = record {
  ledger = record {
    task_id = task_id;
    run_id = run_id;
    ledger_entries = [];
    final_status = Decision.pending;
    auto_merge = false;
    auto_deploy = false;
    agent_self_certification_used = false;
  };
  counter = 0;
}

-- The arguments of `append`.
pub record AppendRequest : Type 0 where
  pub timestamp : String
  pub artifact_type : ArtifactType
  pub artifact_path : String
  pub hash : String
  pub command : String
  pub result : LedgerResult
  pub recorded_by : String

unfoldable pub entry_id_of : ℕ → String
entry_id_of n = "E" +s show_padded4 n

unfoldable pub new_entry : ℕ → AppendRequest → LedgerEntry
new_entry n r = record {
  entry_id = entry_id_of n;
  timestamp = r.timestamp;
  artifact_type = r.artifact_type;
  artifact_path = r.artifact_path;
  command = r.command;
  result = r.result;
  hash = r.hash;
  recorded_by = r.recorded_by;
}

-- `none` is the ValueError on a missing hash.
unfoldable pub append :
    EvidenceLedgerWriter → AppendRequest → Option (EvidenceLedgerWriter × LedgerEntry)
unfolding new_entry
append w r =
    if r.hash == ""
    then none
    else (let entry = new_entry (w.counter + 1) r in
        some (
          record {
            ledger = record w.ledger { ledger_entries = w.ledger.ledger_entries ++ entry ∷ [] };
            counter = w.counter + 1;
          },
          entry,
        ))

unfoldable pub append_artifact :
    EvidenceLedgerWriter
    → String
    → Artifact
    → LedgerResult
    → String
    → Option (EvidenceLedgerWriter × LedgerEntry)
unfolding append
append_artifact w timestamp a result command = append w (record {
  timestamp = timestamp;
  artifact_type = a.artifact_type;
  artifact_path = a.path;
  hash = a.hash;
  command = command;
  result = result;
  recorded_by = a.recorded_by;
})

unfoldable pub finalize : EvidenceLedgerWriter → Decision → EvidenceLedgerWriter
finalize w final_status = record w { ledger = record w.ledger { final_status = final_status } }

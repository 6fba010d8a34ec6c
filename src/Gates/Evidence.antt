-- ===== src/Gates/Evidence.antt =====
-- Whether the ledger can support a PASS (backend/app/gates/evidence_gate.py).
pub mod Supports
use agent_analysis.Prelude.{
  String, Bool, not, ◌&&◌, ◌||◌, ◌==◌, List, [], ◌∷◌, ◌++◌, map, if◌then◌else◌, collect, gather,
  member, basename, ◌+s◌,
}
use agent_analysis.Schemas.GateResult.{GateResult, of}
use agent_analysis.Schemas.Ledger.{artifact_type_value, LedgerEntry, EvidenceLedger}

abbrev pub quarantined_basenames : List String
quarantined_basenames = "agent_summary.md" ∷ "raw_agent_output.log" ∷ []

-- `entry.entry_id or entry.artifact_path or entry.artifact_type`
unfoldable pub entry_label : LedgerEntry → String
entry_label e =
    if not (e.entry_id == "")
    then e.entry_id
    else if not (e.artifact_path == "")
    then e.artifact_path
    else artifact_type_value e.artifact_type

-- The body of the loop over the entries, with the ids seen so far.
unfoldable pub entry_checks : List String → LedgerEntry → List (Bool × String)
unfolding entry_label
entry_checks seen e =
    let label = entry_label e in
    (
      member (basename e.artifact_path) quarantined_basenames,
      "agent summary used as proof: " +s label,
    )
    ∷ (e.hash == "", "artifact hash missing: " +s label)
    ∷ (
      not (e.command == "") && e.artifact_path == "",
      "command output missing for claimed command: " +s label,
    )
    ∷ (
      not (e.entry_id == "") && member e.entry_id seen,
      "ledger mutated in place without correction: " +s label,
    )
    ∷ []

unfoldable pub remember : LedgerEntry → List String → List String
remember e seen = if e.entry_id == "" then seen else e.entry_id ∷ seen

unfoldable pub entries_reasons : List String → List LedgerEntry → List String
unfolding remember
entries_reasons seen [] = []
entries_reasons seen (e ∷ es) =
    collect (entry_checks seen e) ++ entries_reasons (remember e seen) es

-- The set `present_types`, that the same loop builds, as the types' spellings.
unfoldable pub present_types : List LedgerEntry → List String
present_types entries = map (λ e. artifact_type_value e.artifact_type) entries

unfoldable pub missing_types : List LedgerEntry → List String → List String
missing_types entries required =
    gather
      (λ t.
        collect ((not (member t (present_types entries)), "required artifact missing: " +s t) ∷ []))
      required

unfoldable pub ledger_checks : EvidenceLedger → String → String → List (Bool × String)
ledger_checks ledger run_id task_id =
    (ledger.run_id == "" || not (ledger.run_id == run_id), "ledger not linked to run_id")
    ∷ (ledger.task_id == "" || not (ledger.task_id == task_id), "ledger not linked to task_id")
    ∷ (ledger.agent_self_certification_used, "agent self-certification used as evidence")
    ∷ []

unfoldable pub evidence_gate : EvidenceLedger → String → String → List String → GateResult
evidence_gate ledger run_id task_id required = of "evidence_gate" (
    collect (ledger_checks ledger run_id task_id)
    ++ (entries_reasons [] ledger.ledger_entries ++ missing_types ledger.ledger_entries required))

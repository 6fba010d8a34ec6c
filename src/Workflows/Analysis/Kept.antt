-- ===== src/Workflows/Analysis/Kept.antt =====
-- What one step of the read-only analysis keeps: its artifact and the ledger entry of it.
use agent_analysis.Prelude.{
  ◌+◌, String, ◌≡◌, ◌≢◌, refl, ap, [], ◌∷◌, ◌++◌, none, some, arith, Option-cases, inl, inr, eq_iff,
}
use agent_analysis.Platform.{Platform}
use agent_analysis.Schemas.Ledger.{ArtifactType, Artifact, LedgerEntry, LedgerResult}
use agent_analysis.Storage.ArtifactStore
use agent_analysis.Storage.ArtifactStore.{ArtifactStore}
use agent_analysis.Storage.EvidenceWriter
use agent_analysis.Storage.EvidenceWriter.{AppendRequest, EvidenceLedgerWriter, new_writer}
use agent_analysis.Storage.EvidenceWriter.Written.{append-HasAppended}
use agent_analysis.Workflows.Analysis.{Progress, write_request, keep_artifact}

-- The request that `append_artifact` makes.
abbrev artifact_request : String → Artifact → LedgerResult → String → AppendRequest
artifact_request timestamp a result command = record {
  timestamp = timestamp;
  artifact_type = a.artifact_type;
  artifact_path = a.path;
  hash = a.hash;
  command = command;
  result = result;
  recorded_by = a.recorded_by;
}

append_artifact-refuses :
    (w : EvidenceLedgerWriter) (timestamp : String) (a : Artifact) (result : LedgerResult)
    (command : String)
    → EvidenceWriter.append_artifact w timestamp a result command ≡ none
    → a.hash ≡ ""
unfolding EvidenceWriter.append_artifact EvidenceWriter.append
append_artifact-refuses w timestamp a result command f =
    let blank = eq_iff a.hash "" in ground arith

append_artifact-returns :
    (w : EvidenceLedgerWriter) (timestamp : String) (a : Artifact) (result : LedgerResult)
    (command : String)
    → a.hash ≢ ""
    → (w' : EvidenceLedgerWriter) × (e : LedgerEntry) × (EvidenceWriter.append_artifact w timestamp
          a result command
        ≡ some (w', e))
append_artifact-returns w timestamp a result command h =
    elim (Option-cases (EvidenceWriter.append_artifact w timestamp a result command)) [
      | inr ((w', e), f) ↦ (w', e, f)
      | inl f ↦ absurd (h (append_artifact-refuses w timestamp a result command f))
    ]

module _ (os : Platform) where
  -- What one step of the workflow has done.
  pub record IsKept (run_id name : String) (p q : Progress) (a : Artifact) : Type 0 where
    pub request : AppendRequest
    pub entry : LedgerEntry
    pub appends : EvidenceWriter.append p.writer request ≡ some (q.writer, entry)
    pub path : entry.artifact_path ≡ a.path
    pub type : entry.artifact_type ≡ ArtifactType.analysis_report
    pub entries : q.writer.ledger.ledger_entries ≡ p.writer.ledger.ledger_entries ++ entry ∷ []
    pub placed : a.path ≡ os.join_path (ArtifactStore.run_dir os p.store run_id) name
    pub artifacts : q.artifacts ≡ p.artifacts ++ a ∷ []

  pub keep_artifact-IsKept :
      (run_id task_id name payload command : String) (p : Progress)
      → os.sha256 payload ≢ ""
      → (a : Artifact) × (q : Progress) × (keep_artifact os run_id task_id name payload command p
          ≡ some (a, q))
        × IsKept run_id name p q a
  unfolding keep_artifact write_request ArtifactStore.write ArtifactStore.hash_bytes
      EvidenceWriter.append_artifact
  keep_artifact-IsKept run_id task_id name payload command p h =
      let made =
        ArtifactStore.write os p.store (write_request os run_id task_id name payload p.clock) in
      let now = os.utcnow (p.clock + 1) in
      let (w, e, kept) = append_artifact-returns p.writer now made.1 LedgerResult.info command h in
      let did =
        append-HasAppended p.writer (artifact_request now made.1 LedgerResult.info command) kept in
      (
        made.1,
        record {
          store = made.0;
          writer = w;
          artifacts = p.artifacts ++ made.1 ∷ [];
          clock = p.clock + 2;
        },
        rw (kept, keep_artifact) refl,
        record {
          request = artifact_request now made.1 LedgerResult.info command;
          entry = e;
          appends = kept;
          path = ap (λ (f : LedgerEntry). f.artifact_path) did.entry;
          type = ap (λ (f : LedgerEntry). f.artifact_type) did.entry;
          entries = did.entries;
          placed = refl;
          artifacts = refl;
        },
      )

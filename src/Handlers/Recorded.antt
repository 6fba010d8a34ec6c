-- ===== src/Handlers/Recorded.antt =====
-- What `record_artifact` adds to the ledger (backend/app/chains/context.py).
use agent_analysis.Prelude.{
  ◌+◌, String, ◌≡◌, sym, ap, ◌∙◌, [], ◌∷◌, ◌++◌, some, some_injective, Option-cases, inl, inr,
}
use agent_analysis.Platform.{Platform}
use agent_analysis.Schemas.Ledger.{ArtifactType, LedgerResult, LedgerEntry, Artifact}
use agent_analysis.Storage.ArtifactStore
use agent_analysis.Storage.EvidenceWriter
use agent_analysis.Storage.EvidenceWriter.{AppendRequest, EvidenceLedgerWriter}
use agent_analysis.Storage.EvidenceWriter.Written.{append-HasAppended}
use agent_analysis.Chains.Context.{ChainContext, record_artifact}
use agent_analysis.Handlers.Base.{Identity}
use agent_analysis.Handlers.Commands.{log_request}

-- What a call of `record_artifact` that returns has added to the ledger, and that it touches nothing
-- else that a verifier reads.
pub record HasRecorded (type : ArtifactType) (result : LedgerResult) (c c' : ChainContext)
    : Type 0 where
  pub entry : LedgerEntry
  pub entries : c'.evidence.ledger.ledger_entries ≡ c.evidence.ledger.ledger_entries ++ entry ∷ []
  pub type_is : entry.artifact_type ≡ type
  pub result_is : entry.result ≡ result
  pub outcomes : c'.test_outcomes ≡ c.test_outcomes

module _ (os : Platform) where
  -- The request to the ledger that `record_artifact` makes.
  abbrev ledger_request :
      Identity
      → String
      → String
      → ArtifactType
      → String
      → LedgerResult
      → ChainContext
      → AppendRequest
  ledger_request self name payload type command result c = record {
    timestamp = os.utcnow (c.clock + 1);
    artifact_type = type;
    artifact_path = os.join_path (ArtifactStore.run_dir os c.store c.request.run_id) name;
    hash = os.sha256 payload;
    command = command;
    result = result;
    recorded_by = self.name;
  }

  pub record_artifact-HasRecorded :
      (self : Identity) (name payload : String) (type : ArtifactType) (command : String)
      (result : LedgerResult) (c : ChainContext) {a : Artifact} {c' : ChainContext}
      → record_artifact os (log_request self name payload type command result) c ≡ some (a, c')
      → HasRecorded type result c c'
  unfolding record_artifact log_request EvidenceWriter.append_artifact ArtifactStore.write
      ArtifactStore.hash_bytes EvidenceWriter.new_entry
  record_artifact-HasRecorded self name payload type command result c {a} {c'} e =
      let r = ledger_request self name payload type command result c in
      elim (Option-cases (EvidenceWriter.append c.evidence r)) [
        | inl f ↦ cc (rw (f, record_artifact) at e)
        | inr ((w, entry), f) ↦
            let did = append-HasAppended c.evidence r f in
            let left : w ≡ c'.evidence =
              ap (λ (p : Artifact × ChainContext). p.1.evidence)
                (some_injective (rw (f, record_artifact) at e)) in
            record {
              entry = entry;
              entries =
                  ap (λ (v : EvidenceLedgerWriter). v.ledger.ledger_entries) (sym left)
                  ∙ did.entries;
              type_is = ap (λ (x : LedgerEntry). x.artifact_type) did.entry;
              result_is = ap (λ (x : LedgerEntry). x.result) did.entry;
              outcomes = sym (
                  ap (λ (p : Artifact × ChainContext). p.1.test_outcomes)
                    (some_injective (rw (f, record_artifact) at e)));
            }
      ]

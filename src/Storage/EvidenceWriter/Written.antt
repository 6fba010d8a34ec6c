-- ===== src/Storage/EvidenceWriter/Written.antt =====
-- Every ledger that the writer can produce, and what the evidence gate says of it.
use agent_analysis.Prelude.{
  ℕ, ◌+◌, ◌≤◌, String, true, false, eq_iff, ◌≡◌, ◌≢◌, ◌↔◌, sym, ◌∙◌, ap, List, [], ◌∷◌, ◌++◌, arith,
  All, All-append, Memᴰ, some, length, length-append, basename, show_padded4,
  show_padded4_injective, subst, iff_trans,
}
use text.Mathlib.TextLemmas.{append_cancel_left, cons-append, cons-ne-nil}
use agent_analysis.Schemas.Constants.{Decision}
use agent_analysis.Schemas.GateResult.{passed}
use agent_analysis.Schemas.Ledger.{LedgerEntry}
use agent_analysis.Gates.Evidence.{present_types, evidence_gate}
use agent_analysis.Gates.Evidence.Supports.{IsEvidence, AreDistinct, evidence_gate-passed_iff}
use agent_analysis.Storage.EvidenceWriter.{
  EvidenceLedgerWriter, AppendRequest, new_writer, entry_id_of, new_entry, append, finalize,
}

-- The writers that the methods can reach, for one task and run.
pub data Written (task_id run_id : String) : EvidenceLedgerWriter → Type 0 where
  opened : Written task_id run_id (new_writer task_id run_id)
  appended :
      {w w' : EvidenceLedgerWriter} {e : LedgerEntry}
      → Written task_id run_id w
      → (r : AppendRequest) → append w r ≡ some (w', e)
      → Written task_id run_id w'
  finalized :
      {w : EvidenceLedgerWriter}
      → Written task_id run_id w
      → (d : Decision) → Written task_id run_id (finalize w d)

-- The ids from `n + 1` on, in order.
abbrev AreNumberedFrom : ℕ → List LedgerEntry → Type 0
AreNumberedFrom n [] = Unit
AreNumberedFrom n (e ∷ es) = (e.entry_id ≡ entry_id_of (n + 1)) × AreNumberedFrom (n + 1) es

entry_id_injective : (m n : ℕ) → entry_id_of m ≡ entry_id_of n → m ≡ n
unfolding entry_id_of
entry_id_injective m n e = show_padded4_injective m n (append_cancel_left "E" _ _ e)

entry_id-ne-empty : (n : ℕ) → entry_id_of n ≢ ""
unfolding entry_id_of
entry_id-ne-empty n e = cons-ne-nil _ _ (sym (cons-append _ "" (show_padded4 n)) ∙ e)

numbered-append :
    (n : ℕ) (es : List LedgerEntry) (e : LedgerEntry)
    → AreNumberedFrom n es
    → e.entry_id ≡ entry_id_of (n + length es + 1)
    → AreNumberedFrom n (es ++ e ∷ [])
numbered-append n [] e h q = (q ∙ ap entry_id_of (omega arith), tt)
numbered-append n (f ∷ fs) e h q =
    (h.0, numbered-append (n + 1) fs e h.1 (q ∙ ap entry_id_of (omega arith)))

-- Ids above `k` differ from the id of `k`.
later_differ :
    (k n : ℕ) (es : List LedgerEntry) (e : LedgerEntry)
    → e.entry_id ≡ entry_id_of k
    → k ≤ n
    → AreNumberedFrom n es
    → All (λ f. f.entry_id ≢ e.entry_id) es
later_differ k n [] e q le h = tt
later_differ k n (f ∷ fs) e q le h = (
  λ p. absurd (k_ne (entry_id_injective (n + 1) k (sym h.0 ∙ p ∙ q))),
  later_differ k (n + 1) fs e q (omega arith) h.1,
)
  where
    k_ne : n + 1 ≡ k → ⊥
    k_ne p = omega arith

numbered_distinct : (n : ℕ) (es : List LedgerEntry) → AreNumberedFrom n es → AreDistinct es
numbered_distinct n [] h = tt
numbered_distinct n (e ∷ es) h =
    (λ _. later_differ (n + 1) (n + 1) es e h.0 (omega arith) h.1, numbered_distinct (n + 1) es h.1)

-- What holds of a writer between two calls.
pub record IsWellFormed (task_id run_id : String) (w : EvidenceLedgerWriter) : Type 0 where
  pub task : w.ledger.task_id ≡ task_id
  pub run : w.ledger.run_id ≡ run_id
  pub uncertified : w.ledger.agent_self_certification_used ≡ false
  pub counted : w.counter ≡ length w.ledger.ledger_entries
  pub numbered : AreNumberedFrom 0 w.ledger.ledger_entries
  pub hashed : All (λ e. e.hash ≢ "") w.ledger.ledger_entries

-- What a call of `append` that returns has done.
pub record HasAppended (w : EvidenceLedgerWriter) (r : AppendRequest) (w' : EvidenceLedgerWriter)
    (e : LedgerEntry) : Type 0 where
  pub hashed : r.hash ≢ ""
  pub entry : e ≡ new_entry (w.counter + 1) r
  pub entry_id : e.entry_id ≡ entry_id_of (w.counter + 1)
  pub hash : e.hash ≡ r.hash
  pub entries : w'.ledger.ledger_entries ≡ w.ledger.ledger_entries ++ e ∷ []
  pub counter : w'.counter ≡ w.counter + 1
  pub task : w'.ledger.task_id ≡ w.ledger.task_id
  pub run : w'.ledger.run_id ≡ w.ledger.run_id
  pub status : w'.ledger.final_status ≡ w.ledger.final_status
  pub uncertified : w'.ledger.agent_self_certification_used ≡ w.ledger.agent_self_certification_used

-- The entry that a call of `append` returns is the request under the next id, and it stands after the
-- entries that were there, which are all kept.
pub append-HasAppended :
    (w : EvidenceLedgerWriter) (r : AppendRequest) {w' : EvidenceLedgerWriter} {e : LedgerEntry}
    → append w r ≡ some (w', e)
    → HasAppended w r w' e
unfolding append
append-HasAppended w r h = let blank = eq_iff r.hash "" in ground arith

append-IsWellFormed :
    (t u : String) (w : EvidenceLedgerWriter) (r : AppendRequest) {w' : EvidenceLedgerWriter}
    {e : LedgerEntry}
    → IsWellFormed t u w
    → append w r ≡ some (w', e)
    → IsWellFormed t u w'
append-IsWellFormed t u w r {w'} {e} v h =
    let a = append-HasAppended w r h in
    record {
      task = a.task ∙ v.task;
      run = a.run ∙ v.run;
      uncertified = a.uncertified ∙ v.uncertified;
      counted = omega (
        arith,
        a.counter,
        v.counted,
        ap length a.entries,
        length-append w.ledger.ledger_entries (e ∷ []),
      );
      numbered = subst (AreNumberedFrom 0) (sym a.entries) (
          numbered-append 0 w.ledger.ledger_entries e v.numbered
            (a.entry_id ∙ ap entry_id_of (omega (arith, v.counted))));
      hashed = subst (All (λ f. f.hash ≢ "")) (sym a.entries) (
          All-append _ w.ledger.ledger_entries (e ∷ []) v.hashed
            ((λ b. a.hashed (sym a.hash ∙ b)), tt));
    }

Written-IsWellFormed :
    {t u : String} {w : EvidenceLedgerWriter} → Written t u w → IsWellFormed t u w
unfolding new_writer finalize
Written-IsWellFormed opened = ground arith
Written-IsWellFormed {t} {u} (appended {w = w} h r a) =
    append-IsWellFormed t u w r (Written-IsWellFormed h) a
Written-IsWellFormed (finalized {w = w} h d) =
    let v = Written-IsWellFormed h in
    record {
      task = v.task;
      run = v.run;
      uncertified = v.uncertified;
      counted = v.counted;
      numbered = v.numbered;
      hashed = v.hashed;
    }

-- No agent narrative, and a command only with its output.
pub record IsClean (e : LedgerEntry) : Type 0 where
  pub no_summary : basename e.artifact_path ≢ "agent_summary.md"
  pub no_raw_output : basename e.artifact_path ≢ "raw_agent_output.log"
  pub captured : e.command ≢ "" → e.artifact_path ≢ ""

clean-IsEvidence :
    (es : List LedgerEntry) → All (λ e. e.hash ≢ "") es → All IsClean es → All IsEvidence es
clean-IsEvidence [] h c = tt
clean-IsEvidence (e ∷ es) h c = (
  record {
    no_summary = c.0.no_summary;
    no_raw_output = c.0.no_raw_output;
    hashed = h.0;
    captured = c.0.captured;
  },
  clean-IsEvidence es h.1 c.1,
)

-- Whatever calls produced a writer for a named run and task, its entries have distinct ids and
-- hashes: if they are free of agent narrative and of commands without output, the evidence gate
-- passes the ledger exactly when the required artifact types are present.
pub Written-ledger-passed_iff :
    (task_id run_id : String) (w : EvidenceLedgerWriter) (required : List String)
    → Written task_id run_id w
    → task_id ≢ ""
    → run_id ≢ ""
    → All IsClean w.ledger.ledger_entries
    → (passed (evidence_gate w.ledger run_id task_id required) ≡ true)
      ↔ ((t : String) → Memᴰ t required → Memᴰ t (present_types w.ledger.ledger_entries))
Written-ledger-passed_iff task_id run_id w required h named_task named_run clean =
    let v = Written-IsWellFormed h in
    iff_trans (evidence_gate-passed_iff w.ledger run_id task_id required) (
      λ s. s.complete,
      λ c. record {
        run_linked = (named_run, v.run);
        task_linked = (named_task, v.task);
        no_self_certification = v.uncertified;
        evidence = clean-IsEvidence w.ledger.ledger_entries v.hashed clean;
        distinct = numbered_distinct 0 w.ledger.ledger_entries v.numbered;
        complete = c;
      },
    )

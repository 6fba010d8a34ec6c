-- ===== src/Gates/Evidence/Supports.antt =====
-- Which ledgers can support a PASS.
use mathlib.Core.Bool.{false≢true}
use agent_analysis.Prelude.{
  ◌⊎◌, if◌then◌else◌, sym, ◌∙◌, ◌+s◌, String, true, false, eq_iff, ◌≡◌, ◌≢◌, ◌↔◌, List, [], ◌∷◌,
  arith, All, iff_trans, both, Memᴰ, member, member→mem, mem→member, gather-eq-nil, append-eq-nil,
  collect, collect-eq-nil, not, mem→All, All→mem, basename, inl, inr, Bool-cases, refl, ◌==◌,
}
use agent_analysis.Schemas.GateResult.{passed, passed-of}
use agent_analysis.Schemas.Ledger.{LedgerEntry, EvidenceLedger}
use agent_analysis.Gates.Evidence.{
  entry_checks, remember, entries_reasons, present_types, missing_types, ledger_checks,
  evidence_gate,
}

-- One entry is evidence: no agent narrative, hashed, and a claimed command has its output.
pub record IsEvidence (e : LedgerEntry) : Type 0 where
  pub no_summary : basename e.artifact_path ≢ "agent_summary.md"
  pub no_raw_output : basename e.artifact_path ≢ "raw_agent_output.log"
  pub hashed : e.hash ≢ ""
  pub captured : e.command ≢ "" → e.artifact_path ≢ ""

-- No id stands twice, the empty one aside.
abbrev pub AreDistinct : List LedgerEntry → Type 0
AreDistinct [] = Unit
AreDistinct (e ∷ es) = (e.entry_id ≢ "" → All (λ f. f.entry_id ≢ e.entry_id) es) × AreDistinct es

-- No entry has an id that was seen, the empty one aside.
abbrev AreFresh : List String → List LedgerEntry → Type 0
AreFresh seen es = All (λ e. e.entry_id ≢ "" → Memᴰ e.entry_id seen → ⊥) es

entry_iff :
    (seen : List String) (e : LedgerEntry)
    → (collect (entry_checks seen e) ≡ [])
      ↔ (IsEvidence e × (e.entry_id ≢ "" → Memᴰ e.entry_id seen → ⊥))
unfolding entry_checks
entry_iff seen e =
    let hash = eq_iff e.hash "" in
    let command = eq_iff e.command "" in
    let path = eq_iff e.artifact_path "" in
    let id = eq_iff e.entry_id "" in
    let old = mem→member e.entry_id seen in
    let seen_in = member→mem e.entry_id seen in
    let summary = eq_iff (basename e.artifact_path) "agent_summary.md" in
    let raw = eq_iff (basename e.artifact_path) "raw_agent_output.log" in
    (
      λ h. let t = (collect-eq-nil (entry_checks seen e)).0 h in ground arith,
      λ h. (collect-eq-nil (entry_checks seen e)).1 (ground arith),
    )

remember_iff :
    (e : LedgerEntry) (seen : List String) (x : String)
    → Memᴰ x (remember e seen) ↔ ((e.entry_id ≢ "") × (x ≡ e.entry_id) ⊎ Memᴰ x seen)
unfolding remember
remember_iff e seen x = elim (Bool-cases (e.entry_id == "")) [
  | inl b ↦
      rw (b, if◌then◌else◌)
        (inr, λ h. elim h [ inl k ↦ absurd (k.0 ((eq_iff e.entry_id "").0 b)) | inr m ↦ m ])
  | inr b ↦
      rw (b, if◌then◌else◌)
        (
          known (λ q. false≢true (sym b ∙ (eq_iff e.entry_id "").1 q)),
          λ h. elim h [ inl k ↦ Memᴰ.head k.1 | inr m ↦ Memᴰ.tail m ],
        )
]
  where
    known :
        e.entry_id ≢ ""
        → Memᴰ x (e.entry_id ∷ seen)
        → ((e.entry_id ≢ "") × (x ≡ e.entry_id) ⊎ Memᴰ x seen)
    known n (Memᴰ.head q) = inl (n, q)
    known n (Memᴰ.tail m) = inr m

fresh_remember :
    (e : LedgerEntry) (seen : List String) (es : List LedgerEntry)
    → AreFresh (remember e seen) es
      ↔ (AreFresh seen es × (e.entry_id ≢ "" → All (λ f. f.entry_id ≢ e.entry_id) es))
fresh_remember e seen [] = (λ h. (tt, λ n. tt), λ h. tt)
fresh_remember e seen (f ∷ fs) =
    let rest = fresh_remember e seen fs in
    (
      λ h. (
        (λ n m. h.0 n ((remember_iff e seen f.entry_id).1 (inr m)), (rest.0 h.1).0),
        λ n. (
          λ q. h.0 (λ b. n (sym q ∙ b)) ((remember_iff e seen f.entry_id).1 (inl (n, q))),
          (rest.0 h.1).1 n,
        ),
      ),
      λ h. (
        λ n m. elim ((remember_iff e seen f.entry_id).0 m) [
          | inl k ↦ (h.1 k.0).0 k.1
          | inr i ↦ h.0.0 n i
        ],
        rest.1 (h.0.1, λ n. (h.1 n).1),
      ),
    )

entries_iff :
    (seen : List String) (es : List LedgerEntry)
    → (entries_reasons seen es ≡ []) ↔ (All IsEvidence es × AreFresh seen es × AreDistinct es)
unfolding entries_reasons
entries_iff seen [] = (λ h. (tt, tt, tt), λ h. refl)
entries_iff seen (e ∷ es) =
    let one = entry_iff seen e in
    let rest = entries_iff (remember e seen) es in
    let fresh = fresh_remember e seen es in
    (
      λ h.
          let (p, q) = (append-eq-nil _ _).0 h in
          let (v, f) = one.0 p in
          let (vs, g, d) = rest.0 q in ((v, vs), (f, (fresh.0 g).0), ((fresh.0 g).1, d)),
      λ h.
          (append-eq-nil _ _).1
            (one.1 (h.0.0, h.1.0), rest.1 (h.0.1, fresh.1 (h.1.1, h.2.0), h.2.1)),
    )

missing_iff :
    (es : List LedgerEntry) (required : List String)
    → (missing_types es required ≡ [])
      ↔ ((t : String) → Memᴰ t required → Memᴰ t (present_types es))
unfolding missing_types
missing_iff es required = iff_trans (gather-eq-nil _ required) (
  λ h t m. member→mem t (present_types es) (present t (All→mem _ t required h m)),
  λ h. mem→All _ required (λ t m. let p = mem→member t (present_types es) (h t m) in ground arith),
)
  where
    present :
        (t : String)
        → (collect ((not (member t (present_types es)), "required artifact missing: " +s t) ∷ [])
            ≡ [])
        → member t (present_types es) ≡ true
    present t h = ground arith

-- A ledger that supports a PASS of a run and a task.
pub record Supports (ledger : EvidenceLedger) (run_id task_id : String) (required : List String)
    : Type 0 where
  pub run_linked : (run_id ≢ "") × (ledger.run_id ≡ run_id)
  pub task_linked : (task_id ≢ "") × (ledger.task_id ≡ task_id)
  pub no_self_certification : ledger.agent_self_certification_used ≡ false
  pub evidence : All IsEvidence ledger.ledger_entries
  pub distinct : AreDistinct ledger.ledger_entries
  pub complete : (t : String) → Memᴰ t required → Memᴰ t (present_types ledger.ledger_entries)

ledger_iff :
    (ledger : EvidenceLedger) (run_id task_id : String)
    → (collect (ledger_checks ledger run_id task_id) ≡ []) ↔ (
        ((run_id ≢ "") × (ledger.run_id ≡ run_id))
        × ((task_id ≢ "") × (ledger.task_id ≡ task_id))
        × (ledger.agent_self_certification_used ≡ false))
unfolding ledger_checks
ledger_iff ledger run_id task_id =
    let run_blank = eq_iff ledger.run_id "" in
    let run_same = eq_iff ledger.run_id run_id in
    let task_blank = eq_iff ledger.task_id "" in
    let task_same = eq_iff ledger.task_id task_id in
    (
      λ h. let t = (collect-eq-nil (ledger_checks ledger run_id task_id)).0 h in ground arith,
      λ h. (collect-eq-nil (ledger_checks ledger run_id task_id)).1 (ground arith),
    )

unseen : (es : List LedgerEntry) → AreFresh [] es
unseen [] = tt
unseen (e ∷ es) = (λ n m. elim m [ ], unseen es)

-- The evidence gate passes exactly when the ledger is linked to the run and the task, is not
-- self-certified, holds only hashed evidence with distinct ids, and has every required type.
pub evidence_gate-passed_iff :
    (ledger : EvidenceLedger) (run_id task_id : String) (required : List String)
    → (passed (evidence_gate ledger run_id task_id required) ≡ true)
      ↔ Supports ledger run_id task_id required
unfolding evidence_gate
evidence_gate-passed_iff ledger run_id task_id required = iff_trans (passed-of _ _) (
    iff_trans (append-eq-nil _ _) (
      iff_trans
        (both (ledger_iff ledger run_id task_id) (
          iff_trans (append-eq-nil _ _)
            (both (entries_iff [] ledger.ledger_entries) (missing_iff _ required))))
        (
          λ h. record {
            run_linked = h.0.0;
            task_linked = h.0.1;
            no_self_certification = h.0.2;
            evidence = h.1.0.0;
            distinct = h.1.0.2;
            complete = h.1.1;
          },
          λ h. (
            (h.run_linked, h.task_linked, h.no_self_certification),
            ((h.evidence, unseen ledger.ledger_entries, h.distinct), h.complete),
          ),
        )))

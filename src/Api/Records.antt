-- ===== src/Api/Records.antt =====
-- The run records and their in-memory repository (backend/app/storage/run_records.py,
-- run_repository.py). The repository is a dict from `run_id`; its records stand in the order of
-- their first insertion.
use agent_analysis.Prelude.{
  String, ◌==◌, List, [], ◌∷◌, Option, none, some, if◌then◌else◌, ◌≡◌, arith, All, eq_iff,
  Bool-cases, inl, inr, subst, some_injective,
}
use agent_analysis.Schemas.Json.{Value}
use agent_analysis.Schemas.Ledger.{Artifact}
use agent_analysis.Schemas.Manifest.{RunManifest}
use agent_analysis.Schemas.Reviews.{VerifierReport}
use agent_analysis.Schemas.Chain.{ChainExecutionResult}
use agent_analysis.Runtime.Workspace.{RunAttempt}

pub record RunRecord : Type 0 where
  pub run_id : String
  pub manifest : RunManifest
  pub state : String
  pub verifier_report : Option VerifierReport
  pub chain_result : Option Value
  pub chain_execution_result : Option ChainExecutionResult
  pub llm_invocations : List Value
  pub tenant_id : Option String
  pub attempts : List RunAttempt
  pub artifacts : List Artifact

abbrev pub Repository : Type 0
Repository = List RunRecord

-- `add` and `save`, which are the same upsert.
unfoldable pub save : RunRecord → Repository → Repository
save r [] = r ∷ []
save r (q ∷ qs) = if q.run_id == r.run_id then r ∷ qs else q ∷ save r qs

unfoldable pub get : String → Repository → Option RunRecord
get run_id [] = none
get run_id (q ∷ qs) = if q.run_id == run_id then some q else get run_id qs

-- After a record is saved, it is what its id names, and every other id names what it did.
pub get-save :
    (r : RunRecord) (repo : Repository) (run_id : String)
    → get run_id (save r repo) ≡ (if r.run_id == run_id then some r else get run_id repo)
unfolding get save
get-save r [] run_id = ground arith
get-save r (q ∷ qs) run_id =
    let one = eq_iff q.run_id r.run_id in
    let two = eq_iff r.run_id run_id in
    let three = eq_iff q.run_id run_id in ground (arith, get-save r qs run_id)

pub get→All {κ} :
    (P : RunRecord → Type κ) (run_id : String) (repo : Repository) {r : RunRecord}
    → All P repo
    → get run_id repo ≡ some r
    → P r
unfolding get
get→All P run_id [] h e = cc
get→All P run_id (q ∷ qs) h e = elim (Bool-cases (q.run_id == run_id)) [
  | inl t ↦ subst P (some_injective (rw (t, if◌then◌else◌) at e)) h.0
  | inr f ↦ get→All P run_id qs h.1 (rw (f, if◌then◌else◌) at e)
]

pub save-All {κ} :
    (P : RunRecord → Type κ) (r : RunRecord) (repo : Repository)
    → P r
    → All P repo
    → All P (save r repo)
unfolding save
save-All P r [] p h = (p, h)
save-All P r (q ∷ qs) p h = ground (arith, save-All P r qs p h.1)

pub get-save-same :
    (r : RunRecord) (repo : Repository) (run_id : String)
    → r.run_id ≡ run_id
    → get run_id (save r repo) ≡ some r
get-save-same r repo run_id e = ground (arith, get-save r repo run_id, eq_iff r.run_id run_id)

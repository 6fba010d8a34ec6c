-- ===== src/Gates/Scope.antt =====
-- Changed files against the approved scope (backend/app/gates/scope_gate.py). `fnmatch` is Python's
-- `fnmatch.fnmatch`, a parameter: the gate is right for whatever the patterns mean.
pub mod Admits
use agent_analysis.Prelude.{
  String, Bool, not, ◌&&◌, List, [], ◌∷◌, if◌then◌else◌, any, gather, slashes, ◌+s◌,
}
use agent_analysis.Schemas.GateResult.{GateResult, of}

-- The keyword arguments of `scope_gate`, an omitted list being empty.
pub record Scope : Type 0 where
  pub files_in_scope : List String
  pub files_out_of_scope : List String
  pub approved_scope_changes : List String
  pub protected_files : List String
  pub harness_files : List String
  pub is_framework_change_task : Bool

module _ (fnmatch : String → String → Bool) where
  unfoldable pub matches_any : String → List String → Bool
  matches_any path patterns = any (λ p. fnmatch (slashes path) (slashes p)) patterns

  -- The body of the loop; each `continue` is a branch.
  unfoldable pub file_reasons : Scope → String → List String
  file_reasons s path =
      let approved = matches_any path s.approved_scope_changes in
      if matches_any path s.harness_files && not s.is_framework_change_task
      then ("harness file modified without framework-change task: " +s path) ∷ []
      else if matches_any path s.protected_files && not approved
      then ("protected file modified without approval: " +s path) ∷ []
      else if matches_any path s.files_out_of_scope && not approved
      then ("out-of-scope change without approved record: " +s path) ∷ []
      else if not (matches_any path s.files_in_scope) && not approved
      then ("file outside scope: " +s path) ∷ []
      else []

  unfoldable pub scope_gate : List String → Scope → GateResult
  scope_gate changed_files s = of "scope_gate" (gather (file_reasons s) changed_files)

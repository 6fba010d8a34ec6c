-- ===== src/Gates/Scope/Admits.antt =====
-- What the scope gate admits.
use agent_analysis.Prelude.{
  String, Bool, true, ◌≡◌, ◌↔◌, ◌⊎◌, List, [], arith, iff_trans, Memᴰ, gather-eq-nil, mem→All,
  All→mem,
}
use agent_analysis.Schemas.GateResult.{passed, passed-of}
use agent_analysis.Gates.Scope.{Scope, matches_any, file_reasons, scope_gate}

module _ (fnmatch : String → String → Bool) where
  -- One changed file is within the approved scope.
  pub record IsApproved (s : Scope) (path : String) : Type 0 where
    pub harness :
        matches_any fnmatch path s.harness_files ≡ true → s.is_framework_change_task ≡ true
    pub protected :
        matches_any fnmatch path s.protected_files ≡ true
        → matches_any fnmatch path s.approved_scope_changes ≡ true
    pub out_of_scope :
        matches_any fnmatch path s.files_out_of_scope ≡ true
        → matches_any fnmatch path s.approved_scope_changes ≡ true
    pub in_scope :
        (matches_any fnmatch path s.files_in_scope ≡ true)
        ⊎ (matches_any fnmatch path s.approved_scope_changes ≡ true)

  file_iff : (s : Scope) (path : String) → (file_reasons fnmatch s path ≡ []) ↔ IsApproved s path
  unfolding file_reasons
  file_iff s path = (λ h. ground arith, λ h. ground arith)

  -- The scope gate passes exactly when every changed file is in scope or approved, no protected or
  -- out-of-scope file is touched without approval, and no harness file outside a framework task.
  pub scope_gate-passed_iff :
      (changed : List String) (s : Scope)
      → (passed (scope_gate fnmatch changed s) ≡ true)
        ↔ ((path : String) → Memᴰ path changed → IsApproved s path)
  unfolding scope_gate
  scope_gate-passed_iff changed s = iff_trans (passed-of _ _) (
      iff_trans (gather-eq-nil _ changed) (
        λ h path m. (file_iff s path).0 (All→mem _ path changed h m),
        λ h. mem→All _ changed (λ path m. (file_iff s path).1 (h path m)),
      ))

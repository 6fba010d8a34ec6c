-- ===== src/Runners/Sandbox/Permits.antt =====
-- What the sandbox lets through.
use agent_analysis.Prelude.{
  String, Bool, true, false, ◌≡◌, ◌≢◌, ◌↔◌, iff_trans, [], is_nil_iff, arith,
}
use agent_analysis.Schemas.Constants.{RunType}
use agent_analysis.Schemas.GateResult.{passed, passed-of}
use agent_analysis.Runners.Sandbox.{
  SandboxPolicy, PolicyRequest, build_policy, pattern_matches, write_reasons, check_write,
  command_reasons, check_command,
}

module _ (fnmatch : String → String → Bool) where
  -- A run may write a path exactly when it is an implementation run, the path is in the approved
  -- scope or there is none, and it is not out of scope; so a read-only run writes nothing.
  pub check_write-build_policy_iff :
      (run_type : RunType) (r : PolicyRequest) (path : String)
      → (passed (check_write fnmatch (build_policy run_type r) path) ≡ true) ↔ (
          (run_type ≡ RunType.implementation)
          × (r.files_in_scope ≢ [] → pattern_matches fnmatch path r.files_in_scope ≡ true)
          × (pattern_matches fnmatch path r.files_out_of_scope ≡ false))
  unfolding check_write write_reasons build_policy
  check_write-build_policy_iff RunType.read_only_analysis r path =
      iff_trans (passed-of _ _) (λ e. cc, λ h. cc)
  check_write-build_policy_iff RunType.implementation r path =
      let nothing = is_nil_iff r.files_in_scope in
      iff_trans (passed-of _ _) (λ e. ground arith, λ h. ground arith)

  -- What the policy lets the runner run.
  pub record MayRun (policy : SandboxPolicy) (command : String) : Type 0 where
    pub not_forbidden : pattern_matches fnmatch command policy.forbidden_commands ≡ false
    pub allowlisted :
        policy.allowed_commands ≢ []
        → pattern_matches fnmatch command policy.allowed_commands ≡ true

  pub check_command_iff :
      (policy : SandboxPolicy) (command : String)
      → (passed (check_command fnmatch policy command) ≡ true) ↔ MayRun policy command
  unfolding check_command command_reasons
  check_command_iff policy command =
      let nothing = is_nil_iff policy.allowed_commands in
      iff_trans (passed-of _ _) (λ e. ground arith, λ h. ground arith)

-- ===== src/Gates/Release.antt =====
-- The release boundary: independence of creation and certification, and the gated pull request
-- (backend/app/gates/no_self_certification_gate.py, pr_gate.py).
pub mod Admits
use agent_analysis.Prelude.{String, Bool, not, ◌&&◌, ◌==◌, List, [], ◌∷◌, collect}
use agent_analysis.Schemas.Constants.{Decision, is_pass}
use agent_analysis.Schemas.GateResult.{GateResult, of}

-- The keyword arguments of `no_self_certification_gate`.
pub record Certification : Type 0 where
  pub coding_agent_run_id : String
  pub verifier_run_id : String
  pub coding_agent_id : String
  pub verifier_id : String
  pub verifier_decision : Decision
  pub agent_summary_used_as_evidence : Bool
  pub executor_marked_done : Bool

unfoldable pub certification_checks : Certification → List (Bool × String)
certification_checks c =
    (
      not (c.coding_agent_run_id == "")
          && not (c.verifier_run_id == "")
          && c.coding_agent_run_id == c.verifier_run_id,
      "coding_agent_run_id == verifier_run_id",
    )
    ∷ (
      not (c.coding_agent_id == "")
          && not (c.verifier_id == "")
          && c.coding_agent_id == c.verifier_id,
      "same agent creates and certifies work",
    )
    ∷ (c.agent_summary_used_as_evidence, "agent summary used as evidence")
    ∷ (
      c.executor_marked_done && not (is_pass c.verifier_decision),
      "executor marks Done without verifier PASS",
    )
    ∷ []

unfoldable pub no_self_certification_gate : Certification → GateResult
no_self_certification_gate c = of "no_self_certification_gate" (collect (certification_checks c))

-- The keyword arguments of `pr_gate`.
pub record PullRequest : Type 0 where
  pub verifier_decision : Decision
  pub pr_url : String
  pub pr_skip_reason : String
  pub auto_merge : Bool
  pub auto_deploy : Bool
  pub merge_occurred : Bool
  pub deploy_occurred : Bool
  pub pushed_to_protected_branch : Bool

unfoldable pub pr_checks : PullRequest → List (Bool × String)
pr_checks p =
    (p.auto_merge, "auto_merge must be false")
    ∷ (p.auto_deploy, "auto_deploy must be false")
    ∷ (p.merge_occurred, "merge occurred inside autonomous loop")
    ∷ (p.deploy_occurred, "deploy occurred inside autonomous loop")
    ∷ (p.pushed_to_protected_branch, "PR bypasses protected branch rules")
    ∷ (
      is_pass p.verifier_decision && p.pr_url == "" && p.pr_skip_reason == "",
      "PR missing after verifier PASS without documented reason",
    )
    ∷ []

unfoldable pub pr_gate : PullRequest → GateResult
pr_gate p = of "pr_gate" (collect (pr_checks p))

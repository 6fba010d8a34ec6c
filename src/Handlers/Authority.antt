-- ===== src/Handlers/Authority.antt =====
-- The authority of each handler type (backend/app/handlers/authority.py).
use agent_analysis.Prelude.{Bool, true, false}
use agent_analysis.Schemas.Chain.{HandlerType}

pub record Authority : Type 0 where
  pub modify_repo : Bool
  pub decide_pass : Bool
  pub create_pr : Bool
  pub merge : Bool
  pub deploy : Bool

row : Bool → Bool → Bool → Authority
row modify decide create = record {
  modify_repo = modify;
  decide_pass = decide;
  create_pr = create;
  merge = false;
  deploy = false;
}

-- the table `AUTHORITY`
unfoldable pub authority : HandlerType → Authority
unfolding row
authority HandlerType.pure_check = row false false false
authority HandlerType.read_only_command = row false false false
authority HandlerType.write_command = row true false false
authority HandlerType.agent_invocation = row true false false
authority HandlerType.verifier = row false true false
authority HandlerType.pr_action = row false false true
authority HandlerType.evaluator = row false false false

unfoldable pub can_modify_repo : HandlerType → Bool
unfolding authority
can_modify_repo t = (authority t).modify_repo

unfoldable pub can_decide_pass : HandlerType → Bool
unfolding authority
can_decide_pass t = (authority t).decide_pass

unfoldable pub can_create_pr : HandlerType → Bool
unfolding authority
can_create_pr t = (authority t).create_pr

unfoldable pub can_merge : HandlerType → Bool
unfolding authority
can_merge t = (authority t).merge

unfoldable pub can_deploy : HandlerType → Bool
unfolding authority
can_deploy t = (authority t).deploy

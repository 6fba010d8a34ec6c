-- ===== src/Handlers/Base.antt =====
-- The handler interface, its result builders and the registry (backend/app/handlers/base.py). A
-- handler is its class's attributes and its method `handle`, which returns the result and the
-- context that it leaves; `none` is an exception.
use agent_analysis.Prelude.{
  String, Bool, ◌==◌, List, [], ◌∷◌, Option, none, some, if◌then◌else◌, gather, is_nil,
}
use agent_analysis.Schemas.GateResult.{GateResult, passed}
use agent_analysis.Schemas.Json.{Fields, end}
use agent_analysis.Schemas.Chain.{
  ChainRequest, HandlerType, HandlerStatus, HandlerDecision, HandlerResult,
}
use agent_analysis.Chains.Context.{ChainContext}

abbrev pub Handling : Type 0
Handling = Option (HandlerResult × ChainContext)

pub record Handler : Type 0 where
  pub name : String
  pub handler_type : HandlerType
  pub can_handle : ChainRequest → Bool
  pub handle : ChainRequest → ChainContext → Handling

-- The attributes of a handler that the builders read.
pub record Identity : Type 0 where
  pub name : String
  pub handler_type : HandlerType

unfoldable pub ok_result :
    Identity → HandlerDecision → List String → List GateResult → Fields → HandlerResult
ok_result self decision artifacts gates metadata = record {
  handler_name = self.name;
  handler_type = self.handler_type;
  status = HandlerStatus.pass;
  decision = decision;
  artifacts_created = artifacts;
  evidence_refs = [];
  gate_results = gates;
  next_handler = "";
  failure_reasons = [];
  required_corrections = [];
  metadata = metadata;
}

unfoldable pub fail_result :
    Identity → List String → Bool → List GateResult → List String → HandlerResult
fail_result self reasons blocked gates corrections = record {
  handler_name = self.name;
  handler_type = self.handler_type;
  status = if blocked then HandlerStatus.blocked else HandlerStatus.fail;
  decision = if blocked then HandlerDecision.blocked else HandlerDecision.fail;
  artifacts_created = [];
  evidence_refs = [];
  gate_results = gates;
  next_handler = "";
  failure_reasons = reasons;
  required_corrections = corrections;
  metadata = end;
}

unfoldable pub skip_result : Identity → String → HandlerResult
skip_result self reason = record {
  handler_name = self.name;
  handler_type = self.handler_type;
  status = HandlerStatus.skipped;
  decision = HandlerDecision.skip_not_applicable;
  artifacts_created = [];
  evidence_refs = [];
  gate_results = [];
  next_handler = "";
  failure_reasons = reason ∷ [];
  required_corrections = [];
  metadata = end;
}

-- `[r for g in gates if not g.passed for r in g.reasons]`
unfoldable pub failing_reasons : List GateResult → List String
failing_reasons gates = gather (λ g. if passed g then [] else g.reasons) gates

unfoldable pub from_gates : Identity → List GateResult → Bool → HandlerResult
unfolding ok_result fail_result failing_reasons
from_gates self gates blocked_on_fail =
    if is_nil (failing_reasons gates)
    then ok_result self HandlerDecision.go_on [] gates end
    else fail_result self (failing_reasons gates) blocked_on_fail gates []

-- Handlers by name, in the order of registration.
abbrev pub HandlerRegistry : Type 0
HandlerRegistry = List Handler

-- registry.register(handler): a handler of the same name is replaced in place.
unfoldable pub register : Handler → HandlerRegistry → HandlerRegistry
register h [] = h ∷ []
register h (g ∷ gs) = if g.name == h.name then h ∷ gs else g ∷ register h gs

-- registry.get(name)
unfoldable pub find_handler : String → HandlerRegistry → Option Handler
find_handler name [] = none
find_handler name (h ∷ hs) = if h.name == name then some h else find_handler name hs

-- ===== src/Handlers/Advisories.antt =====
-- The review of advisories that a caller supplies, as DependencyRiskHandler
-- (backend/app/handlers/dependency.py) and DependencyVulnerabilityHandler
-- (backend/app/handlers/security.py) do it.
use agent_analysis.Prelude.{
  String, Bool, false, not, ◌&&◌, ◌||◌, List, [], ◌∷◌, Option, some, ◌>>=◌, if◌then◌else◌, ◌+s◌,
  upper, same_codes, codes, is_nil,
}
use agent_analysis.Platform.{Platform}
use agent_analysis.Schemas.Json.{
  Value, Items, Fields, null, text, array, object, nil, cons, end, field, flag, get_or, truthy,
}
use agent_analysis.Schemas.Reading.{as_object, iterate, str_of}
use agent_analysis.Schemas.Ledger.{ArtifactType, LedgerResult}
use agent_analysis.Schemas.Chain.{ChainRequest, HandlerDecision}
use agent_analysis.Chains.Context.{ChainContext, record_artifact}
use agent_analysis.Handlers.Base.{Handling, Identity, ok_result, fail_result, skip_result}
use agent_analysis.Handlers.Host.{Host}
use agent_analysis.Handlers.Commands.{log_request}

-- What differs between the two handlers.
pub record Review : Type 0 where
  pub self : Identity
  pub key : String
  pub deferred : String
  pub artifact_name : String
  pub command : String
  pub label : String

module _ (repr : Value → String) where
  -- `str(a.get("severity", "")).upper() in _BLOCKING_SEVERITIES and not a.get("waived")`
  unfoldable pub blocks : Fields → Bool
  blocks a =
      let severity = upper (str_of repr (get_or "severity" (text "") a)) in
      (same_codes severity (codes "HIGH") || same_codes severity (codes "CRITICAL"))
      && not (flag "waived" a)

  -- The blocking ones, in order; an advisory that is no dict raises.
  unfoldable pub blocking_advisories : Items → Option (List Fields)
  unfolding blocks
  blocking_advisories nil = some []
  blocking_advisories (cons v vs) = do
    a ← as_object v
    rest ← blocking_advisories vs
    some (if blocks a then a ∷ rest else rest)

  unfoldable pub advisory_reason : String → Fields → String
  advisory_reason label a =
      "blocking "
      +s label
      +s " "
      +s str_of repr (get_or "id" (text "?") a)
      +s " ("
      +s str_of repr (get_or "severity" null a)
      +s ") for "
      +s str_of repr (get_or "package" (text "?") a)

-- The dicts, as a JSON array.
unfoldable pub objects : List Fields → Items
objects [] = nil
objects (a ∷ rest) = cons (object a) (objects rest)

unfoldable pub advisory_reasons : (Value → String) → String → List Fields → List String
unfolding advisory_reason
advisory_reasons repr label [] = []
advisory_reasons repr label (a ∷ rest) =
    advisory_reason repr label a ∷ advisory_reasons repr label rest

module _ (os : Platform) (host : Host) where
  unfoldable pub review_advisories : Review → ChainRequest → ChainContext → Handling
  unfolding blocking_advisories advisory_reasons
  review_advisories r request c =
      let given = get_or r.key null request.metadata in
      if not (truthy given) then some (skip_result r.self r.deferred, c) else (do
        fields ← as_object given
        let advisories = get_or "advisories" (array nil) fields
        items ← iterate advisories
        blocking ← blocking_advisories host.repr items
        art ←
            record_artifact os
              (log_request r.self r.artifact_name
                (os.dumps (
                  object (
                    field "advisories" advisories
                      (field "blocking" (array (objects blocking)) end))))
                ArtifactType.analysis_report r.command
                (if is_nil blocking then LedgerResult.info else LedgerResult.fail))
              c
        some (
          if is_nil blocking
              then ok_result r.self HandlerDecision.go_on [] [] end
              else fail_result r.self (advisory_reasons host.repr r.label blocking) false [] [],
          art.1,
        ))

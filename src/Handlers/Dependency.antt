-- ===== src/Handlers/Dependency.antt =====
-- The dependency handlers (backend/app/handlers/dependency.py).
use agent_analysis.Prelude.{
  String, Bool, true, false, not, ◌&&◌, List, [], ◌∷◌, Option, none, some, ◌>>=◌, if◌then◌else◌,
  ◌+s◌, collect, member, map, basename, sorted_set, is_nil, ◌||◌,
}
use agent_analysis.Platform.{Platform}
use agent_analysis.Schemas.Json.{
  Value, Items, Fields, null, text, array, object, nil, cons, end, field, flag, get_or, truthy,
  texts,
}
use agent_analysis.Schemas.Reading.{as_object, as_text, iterate, texts_of, failed_logs, str_of}
use agent_analysis.Schemas.Ledger.{ArtifactType, LedgerResult}
use agent_analysis.Schemas.Chain.{ChainRequest, HandlerDecision}
use agent_analysis.Chains.Context.{ChainContext, record_artifact}
use agent_analysis.Handlers.Base.{Handling, ok_result, fail_result, skip_result}
use agent_analysis.Handlers.Control.{check_of}
use agent_analysis.Handlers.Host.{Host}
use agent_analysis.Handlers.Commands.{Evidence, command_of, recorded, log_request, gather_evidence}
use agent_analysis.Handlers.Reproduction.{rejections, read_logs}
use agent_analysis.Handlers.Advisories.{Review, review_advisories}

-- `_basenames(paths)`, in order
unfoldable pub basenames : List String → List String
basenames paths = sorted_set (map basename paths)

-- The manifests of `_MANIFEST_LOCKS` that changed without their lock files.
unfoldable pub lock_violations : List String → List String
lock_violations changed = collect (
    (
      member "package.json" changed && not (member "package-lock.json" changed),
      "package.json changed without updating package-lock.json",
    )
    ∷ (
      member "pyproject.toml" changed && not (member "poetry.lock" changed),
      "pyproject.toml changed without updating poetry.lock",
    )
    ∷ [])

-- `lic in names`, where the names are texts; a list or a dict is not hashable and raises.
unfoldable pub is_named : List String → Value → Option Bool
is_named names (text s) = some (member s names)
is_named names (array vs) = none
is_named names (object fs) = none
is_named names v = some false

-- A license that the policy refuses; an empty list of allowed ones allows all.
unfoldable pub is_disallowed : List String → List String → Value → Option Bool
unfolding is_named
is_disallowed allowed denied license = do
  refused ← is_named denied license
  known ← is_named allowed license
  some (refused || not (is_nil allowed) && not known)

-- The violations among the items of the dict.
unfoldable pub license_violations :
    (Value → String) → List String → List String → Fields → Option (List String)
unfolding is_disallowed
license_violations repr allowed denied end = some []
license_violations repr allowed denied (field name license rest) = do
  refused ← is_disallowed allowed denied license
  later ← license_violations repr allowed denied rest
  some (if refused then (name +s ": " +s str_of repr license) ∷ later else later)

-- set(lc.get(key, [])); its elements are texts.
unfoldable pub license_names : String → Fields → Option (List String)
license_names key fields = do names ← iterate (get_or key (array nil) fields); texts_of names

abbrev pub risk_review : Review
risk_review = record {
  self = check_of "DependencyRiskHandler";
  key = "dependency_risk";
  deferred = "no advisory feed configured; dependency risk assessment deferred";
  artifact_name = "dependency_risk.log";
  command = "dependency_risk";
  label = "advisory";
}

module _ (os : Platform) where
  unfoldable pub validate_lockfiles : ChainRequest → ChainContext → Handling
  unfolding lock_violations
  validate_lockfiles request c =
      let self = check_of "LockfileValidationHandler" in
      let changed = basenames c.changed_files in
      let missing = lock_violations changed in
      recorded
        (record_artifact os
          (log_request self "lockfile_validation.log"
            (os.dumps (
              object (
                field "changed" (array (texts changed))
                  (field "lockfile_violations" (array (texts missing)) end))))
            ArtifactType.command_output "lockfile_validation"
            (if is_nil missing then LedgerResult.pass else LedgerResult.fail))
          c)
        (λ art.
          if is_nil missing
          then ok_result self HandlerDecision.go_on [] [] end
          else fail_result self missing false [] [])

module _ (os : Platform) (host : Host) where
  unfoldable pub check_licenses : ChainRequest → ChainContext → Handling
  unfolding license_violations license_names
  check_licenses request c =
      let self = check_of "LicenseCheckHandler" in
      let given = get_or "license_check" null request.metadata in
      if not (truthy given)
      then some (skip_result self "no license data provided; license check deferred", c)
      else (do
        fields ← as_object given
        licenses ← as_object (get_or "licenses" (object end) fields)
        allowed ← license_names "allowed" fields
        denied ← license_names "denied" fields
        violations ← license_violations host.repr allowed denied licenses
        art ←
            record_artifact os
              (log_request self "license_check.log"
                (os.dumps (
                  object (
                    field "licenses" (object licenses) (
                      field "allowed" (array (texts (sorted_set allowed))) (
                        field "denied" (array (texts (sorted_set denied)))
                          (field "violations" (array (texts violations)) end))))))
                ArtifactType.command_output "license_check"
                (if is_nil violations then LedgerResult.pass else LedgerResult.fail))
              c
        some (
          if is_nil violations
              then ok_result self HandlerDecision.go_on [] [] end
              else fail_result self (map (λ v. "disallowed license: " +s v) violations) false [] [],
          art.1,
        ))

  -- DependencyRiskHandler.handle
  unfoldable pub assess_risk : ChainRequest → ChainContext → Handling
  assess_risk request c = review_advisories os host risk_review request c

  -- [f"build failed with exit code …" for o in failed]
  unfoldable pub build_reasons : String → Items → Option (List String)
  build_reasons command nil = some []
  build_reasons command (cons v vs) = do
    o ← as_object v
    rest ← build_reasons command vs
    some (
        ("build failed with exit code "
          +s str_of host.repr (get_or "exit_code" null o)
          +s ": "
          +s str_of host.repr (get_or "command" (text command) o))
        ∷ rest)

  unfoldable pub report_build : Value → Value → ChainContext → Handling
  unfolding read_logs build_reasons
  report_build logs command c =
      let self = command_of "BuildHandler" in
      do
        read ← read_logs logs command
        failed ← failed_logs read.items
        reasons ← build_reasons read.command failed
        art ←
            record_artifact os
              (log_request self "build_output.log" (os.dumps logs) ArtifactType.build read.command
                (if is_nil reasons then LedgerResult.pass else LedgerResult.fail))
              c
        some (
          if is_nil reasons
              then ok_result self HandlerDecision.go_on ((art.0).path ∷ []) [] end
              else fail_result self reasons false [] [],
          art.1,
        )

  -- What becomes of the evidence.
  unfoldable pub settle_build : Evidence → ChainContext → Handling
  unfolding rejections
  settle_build Evidence.missing c = some (
    skip_result (command_of "BuildHandler")
        "no build command or build evidence provided; build deferred",
    c,
  )
  settle_build (Evidence.refused rejected tree) c = some (
    fail_result (command_of "BuildHandler") (rejections rejected) true [] [],
    record c { repo = tree },
  )
  settle_build (Evidence.gathered logs command tree) c =
      report_build logs command (record c { repo = tree })

  unfoldable pub run_build : ChainRequest → ChainContext → Handling
  run_build request c =
      let meta = request.metadata in
      if flag "build_not_applicable" meta
      then (do
        reason ← as_text (get_or "build_not_applicable_reason" (text "build not applicable") meta)
        some (skip_result (command_of "BuildHandler") reason, c))
      else (do
        evidence ←
            gather_evidence os host request meta (get_or "build_outcomes" null meta)
              (get_or "build_command" (text "build") meta) (get_or "build_commands" null meta)
              c.repo
        settle_build evidence c)

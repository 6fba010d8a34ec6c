-- ===== src/Handlers/Security.antt =====
-- The security handlers (backend/app/handlers/security.py); the verifier is with that of documents in
-- Handlers/Documentation. The regular expressions are the source's texts.
pub mod Scanned
pub mod Waived
use agent_analysis.Prelude.{
  ℕ, ◌+◌, String, Bool, true, false, not, ◌&&◌, List, [], ◌∷◌, ◌++◌, Option, none, some, ◌>>=◌,
  if◌then◌else◌, ◌+s◌, map, is_nil, lines, slashes, sorted_set, join, show_nat, gather, select,
}
use agent_analysis.Platform.{Platform}
use agent_analysis.Schemas.Json.{
  Value, Fields, null, bool, text, array, object, end, field, flag, get_or, get_field, set_field,
  texts, truthy,
}
use agent_analysis.Schemas.Reading.{as_object}
use agent_analysis.Schemas.Ledger.{ArtifactType, LedgerResult}
use agent_analysis.Schemas.Chain.{ChainRequest, HandlerDecision, TaskType}
use agent_analysis.Chains.Context.{ChainContext, record_artifact}
use agent_analysis.Handlers.Base.{Handling, Identity, ok_result, fail_result, skip_result}
use agent_analysis.Handlers.Control.{check_of}
use agent_analysis.Handlers.Host.{Host, Tree, Reading}
use agent_analysis.Handlers.Commands.{command_of, recorded, log_request}
use agent_analysis.Handlers.Advisories.{Review, review_advisories}

-- A label and a regular expression.
abbrev pub Pattern : Type 0
Pattern = String × String

-- `_SECRET_PATTERNS`
abbrev pub secret_patterns : List Pattern
secret_patterns =
    ("private key", "-----BEGIN (?:RSA |EC |OPENSSH |DSA |PGP )?PRIVATE KEY-----")
    ∷ ("aws access key id", "\\bAKIA[0-9A-Z]{16}\\b")
    ∷ (
      "hardcoded credential",
      "(?i)\\b(?:api[_-]?key|secret|password|passwd|token)\\b\\s*[:=]\\s*['\"][^'\"]{8,}['\"]",
    )
    ∷ []

-- `_DANGEROUS_SINKS`
abbrev pub dangerous_sinks : List Pattern
dangerous_sinks =
    ("eval()", "\\beval\\s*\\(")
    ∷ ("exec()", "\\bexec\\s*\\(")
    ∷ ("os.system()", "\\bos\\.system\\s*\\(")
    ∷ ("subprocess shell=True", "shell\\s*=\\s*True")
    ∷ ("pickle.loads()", "\\bpickle\\.loads\\s*\\(")
    ∷ ("yaml.load() without SafeLoader", "\\byaml\\.load\\s*\\((?!.*SafeLoader)")
    ∷ []

-- `_AUTH_KEYWORDS`
abbrev pub auth_keywords : String
auth_keywords =
    "(?i)\\b(?:password|passwd|login|logout|authenticate|authorization|session|permission|privilege|jwt|oauth|credential)\\b"

abbrev pub not_applicable_reason : String
not_applicable_reason =
    "SECURITY_REVIEW has no test runner in this chain; security evidence is supplied by security scan/risk handlers."

-- `request.task_type != TaskType.SECURITY_REVIEW`
unfoldable pub is_security_review : TaskType → Bool
is_security_review TaskType.security_review = true
is_security_review _ = false

-- d.setdefault(key, v)
unfoldable pub set_default : String → Value → Fields → Fields
set_default key v fs = elim (get_field key fs) [ none ↦ set_field key v fs | some w ↦ fs ]

-- The two changes of `request.metadata`.
unfoldable pub declare_not_applicable : Fields → Fields
unfolding set_default
declare_not_applicable metadata =
    set_default "tests_not_applicable_reason" (text not_applicable_reason)
      (set_field "tests_not_applicable" (bool true) metadata)

module _ (host : Host) where
  -- `_iter_changed_text`
  unfoldable pub changed_texts : Tree → List String → List (String × String)
  changed_texts tree [] = []
  changed_texts tree (path ∷ paths) =
      let rest = changed_texts tree paths in
      elim (host.read tree (slashes path)) [
        | Reading.content source ↦ (slashes path, source) ∷ rest
        | _ ↦ rest
      ]

  unfoldable pub line_findings : List Pattern → String → ℕ → String → List String
  line_findings patterns norm number line =
      select (λ p. norm +s ":" +s show_nat number +s ": " +s p.0) (λ p. host.search p.1 line)
        patterns

  unfoldable pub findings_from : List Pattern → String → ℕ → List String → List String
  unfolding line_findings
  findings_from patterns norm number [] = []
  findings_from patterns norm number (line ∷ rest) =
      line_findings patterns norm number line ++ findings_from patterns norm (number + 1) rest

  -- `_scan`
  unfoldable pub scan : List Pattern → ChainContext → List String
  unfolding changed_texts findings_from
  scan patterns c =
      gather (λ f. findings_from patterns f.0 1 (lines f.1)) (changed_texts c.repo c.changed_files)

  -- The changed files that an authentication keyword occurs in.
  unfoldable pub auth_files : ChainContext → List String
  unfolding changed_texts
  auth_files c = sorted_set (
      select (λ f. f.0) (λ f. host.search auth_keywords f.1) (changed_texts c.repo c.changed_files))

-- `bool((request.metadata.get("security_ack") or {}).get("auth_change_reviewed"))`
unfoldable pub is_acknowledged : Fields → Option Bool
is_acknowledged metadata =
    let given = get_or "security_ack" null metadata in
    do
      ack ← if truthy given then as_object given else some end
      some (flag "auth_change_reviewed" ack)

abbrev pub vulnerability_review : Review
vulnerability_review = record {
  self = check_of "DependencyVulnerabilityHandler";
  key = "dependency_vulnerabilities";
  deferred = "no vulnerability feed configured; dependency vulnerability scan deferred";
  artifact_name = "dependency_vulnerability.log";
  command = "dependency_vulnerability_scan";
  label = "vulnerability";
}

module _ (os : Platform) where
  -- SecurityReviewTestsNotApplicableHandler.handle. It changes the metadata of the request, which is
  -- the context's request too.
  unfoldable pub waive_tests : ChainRequest → ChainContext → Handling
  unfolding is_security_review declare_not_applicable
  waive_tests request c =
      let self = check_of "SecurityReviewTestsNotApplicableHandler" in
      if not (is_security_review request.task_type)
      then some (skip_result self "only applies to SECURITY_REVIEW", c)
      else recorded
          (record_artifact os
            (log_request self "security_review_tests_not_applicable.json"
              (os.dumps (
                object (
                  field "task_type" (text "SECURITY_REVIEW") (
                    field "tests_not_applicable" (bool true)
                      (field "reason" (text not_applicable_reason) end)))))
              ArtifactType.analysis_report "security_review_tests_not_applicable" LedgerResult.info)
            (record c {
              request = record request { metadata = declare_not_applicable request.metadata };
              shared = set_field "tests_not_applicable" (bool true) c.shared;
            }))
          (λ art.
            ok_result self HandlerDecision.go_on (art.path ∷ []) []
              (field "tests_not_applicable" (bool true) end))

  -- The two scans differ in their patterns and their names.
  unfoldable pub report_scan :
      Identity → String → String → String → List String → ChainContext → Handling
  report_scan self artifact_name command label findings c =
      recorded
        (record_artifact os
          (log_request self artifact_name
            (os.dumps (object (field "findings" (array (texts findings)) end)))
            ArtifactType.command_output command
            (if is_nil findings then LedgerResult.pass else LedgerResult.fail))
          c)
        (λ art.
          if is_nil findings
          then ok_result self HandlerDecision.go_on [] [] end
          else fail_result self (map (λ f. label +s f) findings) false [] [])

module _ (os : Platform) (host : Host) where
  unfoldable pub scan_secrets : ChainRequest → ChainContext → Handling
  unfolding report_scan
  scan_secrets request c =
      report_scan os (command_of "SecretScanHandler") "secret_scan.log" "secret_scan"
        "hardcoded secret detected: " (scan host secret_patterns c) c

  unfoldable pub scan_sinks : ChainRequest → ChainContext → Handling
  unfolding report_scan
  scan_sinks request c =
      report_scan os (check_of "InputValidationRiskHandler") "input_validation_risk.log"
        "input_validation_risk" "dangerous input sink: " (scan host dangerous_sinks c) c

  -- DependencyVulnerabilityHandler.handle
  unfoldable pub assess_vulnerabilities : ChainRequest → ChainContext → Handling
  assess_vulnerabilities request c = review_advisories os host vulnerability_review request c

  unfoldable pub check_auth_changes : ChainRequest → ChainContext → Handling
  unfolding is_acknowledged
  check_auth_changes request c =
      let self = check_of "AuthChangeRiskHandler" in
      do
        acknowledged ← is_acknowledged request.metadata
        let touched = auth_files host c
        let refused = not (is_nil touched) && not acknowledged
        recorded
            (record_artifact os
              (log_request self "auth_change_risk.log"
                (os.dumps (
                  object (
                    field "auth_touching_files" (array (texts touched))
                      (field "acknowledged" (bool acknowledged) end))))
                ArtifactType.analysis_report "auth_change_risk"
                (if refused then LedgerResult.fail else LedgerResult.pass))
              c)
            (λ art.
              if refused
              then fail_result self
                  (("auth-affecting change requires reviewer acknowledgment (security_ack.auth_change_reviewed): "
                      +s join ", " touched)
                    ∷ [])
                  false [] []
              else ok_result self HandlerDecision.go_on [] [] end)

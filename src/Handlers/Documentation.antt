-- ===== src/Handlers/Documentation.antt =====
-- The documentation handlers (backend/app/handlers/documentation.py).
use agent_analysis.Prelude.{
  String, Bool, false, not, ◌||◌, ◌==◌, List, [], ◌∷◌, ◌++◌, Option, none, some, ◌>>=◌,
  if◌then◌else◌, ◌+s◌, any, select, map, is_nil, length, lower, codes, begins_with, starts, ends_in,
  slashes, basename, sorted_set, first_word, before_hash, pos,
}
use agent_analysis.Platform.{Platform}
use agent_analysis.Schemas.Json.{Value, bool, int, text, array, object, end, field, texts}
use agent_analysis.Schemas.GateResult.{GateResult}
use agent_analysis.Schemas.Ledger.{ArtifactType, LedgerResult}
use agent_analysis.Schemas.Chain.{ChainRequest, HandlerDecision, HandlerStatus}
use agent_analysis.Chains.Context.{ChainContext, record_artifact}
use agent_analysis.Gates.Release.{no_self_certification_gate}
use agent_analysis.Gates.Evidence.{evidence_gate}
use agent_analysis.Gates.Scope.{scope_gate}
use agent_analysis.Handlers.Base.{Handling, ok_result, fail_result, from_gates, failing_reasons}
use agent_analysis.Handlers.Control.{check_of}
use agent_analysis.Handlers.Verification.{
  verifier_of, or_default, certification, scope_of, report_verdict,
}
use agent_analysis.Handlers.Host.{Host, Tree, Reading}
use agent_analysis.Handlers.Commands.{command_of, recorded, log_request}
use agent_analysis.Handlers.CiFailure.{shared_files}

-- `_is_doc`
unfoldable pub is_doc : String → Bool
is_doc path =
    let norm = slashes path in
    starts "docs/" norm
    || begins_with (codes "readme") (lower (basename path))
    || any (λ suffix. ends_in (codes suffix) (lower norm)) (".md" ∷ ".rst" ∷ ".txt" ∷ [])

-- `_LINK_RE`
abbrev pub link_pattern : String
link_pattern = "!?\\[[^\\]]*\\]\\(([^)]+)\\)"

-- The three lists of the link check.
pub record Links : Type 0 where
  pub checked : List String
  pub external : List String
  pub broken : List String

abbrev no_links : Links
no_links = record { checked = []; external = []; broken = [] }

-- Of two parts of a document, or of two documents.
unfoldable pub join_links : Links → Links → Links
join_links a b = record {
  checked = a.checked ++ b.checked;
  external = a.external ++ b.external;
  broken = a.broken ++ b.broken;
}

unfoldable pub is_external : String → Bool
is_external link = any (λ p. starts p link) ("http://" ∷ "https://" ∷ "mailto:" ∷ [])

module _ (host : Host) where
  -- The body of the inner loop: one match of the pattern in the document `norm`.
  unfoldable pub check_link : Tree → String → String → Links
  check_link tree norm raw =
      let target = first_word raw in
      let link = before_hash target in
      if link == ""
      then no_links
      else if is_external link
      then record no_links { external = (norm +s " -> " +s target) ∷ [] }
      else record {
        checked = (norm +s " -> " +s link) ∷ [];
        external = [];
        broken = if host.link_holds tree norm link then [] else (norm +s " -> " +s link) ∷ [];
      }

  unfoldable pub check_links : Tree → String → List String → Links
  unfolding check_link
  check_links tree norm [] = no_links
  check_links tree norm (raw ∷ rest) =
      join_links (check_link tree norm raw) (check_links tree norm rest)

  -- The loop over the changed files; `none` is a document that cannot be read.
  unfoldable pub check_documents : Tree → List String → Option Links
  check_documents tree [] = some no_links
  check_documents tree (path ∷ paths) =
      let norm = slashes path in
      let rest = check_documents tree paths in
      if not (ends_in (codes ".md") (lower norm)) then rest else elim (host.read tree norm) [
        | Reading.no_file ↦ rest
        | Reading.unreadable ↦ none
        | Reading.content source ↦ (do
          later ← rest
          some (join_links (check_links tree norm (host.findall link_pattern source)) later))
      ]

unfoldable pub links_report : Links → Value
links_report l = object (
    field "checked_internal" (array (texts l.checked)) (
      field "external_not_applicable" (array (texts l.external))
        (field "broken_internal" (array (texts l.broken)) end)))

-- The report of the verifiers of documents and of security reviews.
unfoldable pub diff_report : ChainContext → List GateResult → HandlerStatus → String → Value
diff_report c gates status now = object (
    field "task_id" (text c.request.task_id) (
      field "run_id" (text c.request.run_id) (
        field "verifier_run_id" (text c.verifier_run_id) (
          field "coding_agent_run_id" (text c.coding_agent_run_id) (
            field "test_status" (text "NOT_APPLICABLE") (
              field "decision" (text (elim status [ HandlerStatus.pass ↦ "PASS" | _ ↦ "FAIL" ])) (
                field "failure_reasons" (array (texts (failing_reasons gates)))
                  (field "timestamp" (text now) end))))))))

module _ (os : Platform) where
  unfoldable pub inventory_docs : ChainRequest → ChainContext → Handling
  unfolding shared_files is_doc
  inventory_docs request c =
      let self = command_of "DocumentationGapHandler" in
      do
        shared ← shared_files c
        let docs = sorted_set (select (λ f. f) is_doc shared.0)
        recorded
            (record_artifact os
              (log_request self "documentation_gap.log"
                (os.dumps (
                  object (
                    field "doc_files" (array (texts docs)) (
                      field "has_docs" (bool (not (is_nil docs)))
                        (field "doc_count" (int (pos (length docs))) end)))))
                ArtifactType.analysis_report "documentation_gap" LedgerResult.info)
              shared.1)
            (λ art. ok_result self HandlerDecision.go_on (art.path ∷ []) [] end)

  unfoldable pub check_doc_links : Host → ChainRequest → ChainContext → Handling
  unfolding check_documents links_report
  check_doc_links host request c =
      let self = check_of "LinkCheckHandler" in
      do
        links ← check_documents host c.repo c.changed_files
        recorded
            (record_artifact os
              (log_request self "link_check.log" (os.dumps (links_report links))
                ArtifactType.command_output "link_check" LedgerResult.info)
              c)
            (λ art.
              if is_nil links.broken
              then ok_result self HandlerDecision.go_on [] [] end
              else fail_result self
                  (map (λ b. "broken internal documentation link: " +s b) links.broken) false [] [])

  -- The gates of a verifier that asks for a diff and no tests; the documentation verifier and the
  -- security verifier differ in what they say of the agent's summary.
  unfoldable pub diff_gates : Bool → ChainRequest → ChainContext → List GateResult
  unfolding certification scope_of
  diff_gates summary_used request c =
      no_self_certification_gate (certification c summary_used)
      ∷ evidence_gate c.evidence.ledger c.request.run_id c.request.task_id ("DIFF" ∷ [])
      ∷ scope_gate os.fnmatch c.changed_files (scope_of request)
      ∷ []

  -- The last steps of both verifiers.
  unfoldable pub verify_diff : String → Bool → ChainRequest → ChainContext → Handling
  unfolding diff_report
  verify_diff name summary_used request c =
      let gates = diff_gates summary_used request c in
      report_verdict os name gates
        (os.dumps (
          diff_report c gates (from_gates (verifier_of name) gates false).status
            (os.utcnow c.clock)))
        c

  -- DocumentationVerifierHandler.handle
  unfoldable pub verify_documentation : ChainRequest → ChainContext → Handling
  unfolding or_default verify_diff
  verify_documentation request c =
      let c' = record c { verifier_run_id = or_default c.verifier_run_id "doc-verifier" } in
      verify_diff "DocumentationVerifierHandler" (not c.agent_summary_quarantined) request c'

  -- SecurityVerifierHandler.handle (backend/app/handlers/security.py)
  unfoldable pub verify_security : ChainRequest → ChainContext → Handling
  unfolding or_default verify_diff
  verify_security request c =
      let c' = record c { verifier_run_id = or_default c.verifier_run_id "security-verifier" } in
      verify_diff "SecurityVerifierHandler" false request c'

-- ===== src/Handlers/Implementation.antt =====
-- The implementation handlers (backend/app/handlers/implementation.py); the capture of a diff is in
-- Implementation/Diff, and the run of tests and of a reproduction in Handlers/Reproduction.
pub mod Diff
use agent_analysis.Prelude.{
  String, Bool, true, false, not, ◌==◌, ◌&&◌, List, [], ◌∷◌, Option, none, some, ◌>>=◌,
  if◌then◌else◌, ◌+s◌, member, basename, lines, strip, has_text, prefix, is_zero, select,
}
use agent_analysis.Platform.{Platform}
use agent_analysis.Schemas.Json.{
  Fields, null, bool, text, array, object, nil, end, field, truthy, flag, get_or, set_field,
}
use agent_analysis.Schemas.Reading.{as_object, as_text, iterate, texts_of, str_of}
use agent_analysis.Schemas.Ledger.{ArtifactType, LedgerResult, LedgerEntry, Artifact}
use agent_analysis.Schemas.Chain.{ChainRequest, HandlerType, HandlerDecision}
use agent_analysis.Chains.Context.{ChainContext, record_artifact, write_quarantined}
use agent_analysis.Gates.Scope.{scope_gate}
use agent_analysis.Gates.Strategic.{strategic_programming_gate}
use agent_analysis.Handlers.Base.{
  Handling, Identity, ok_result, fail_result, skip_result, from_gates,
}
use agent_analysis.Handlers.Control.{check_of}
use agent_analysis.Handlers.Verification.{scope_of}
use agent_analysis.Handlers.Host.{Host, Tree}
use agent_analysis.Handlers.Commands.{command_of, recorded, log_request}

-- `_QUARANTINED`
abbrev pub quarantined_names : List String
quarantined_names = "agent_summary.md" ∷ "raw_agent_output.log" ∷ []

abbrev pub agent_invocation : Identity
agent_invocation = record {
  name = "AgentInvocationHandler";
  handler_type = HandlerType.agent_invocation;
}

-- The first ledger entry that is quarantined agent output, by its base name.
unfoldable pub leaked_output : List LedgerEntry → Option String
leaked_output [] = none
leaked_output (e ∷ es) =
    if member (basename e.artifact_path) quarantined_names
    then some (basename e.artifact_path)
    else leaked_output es

unfoldable pub check_quarantine : ChainRequest → ChainContext → Handling
unfolding leaked_output
check_quarantine request c =
    let self = check_of "AgentOutputQuarantineHandler" in
    elim (leaked_output c.evidence.ledger.ledger_entries) [
      | some name ↦
          some (fail_result self (("agent output used as evidence: " +s name) ∷ []) false [] [], c)
      | none ↦ some (
        ok_result self HandlerDecision.go_on [] [] end,
        record c { agent_summary_quarantined = true },
      )
    ]

unfoldable pub skip_static_checks : ChainRequest → ChainContext → Handling
skip_static_checks request c = some (
  skip_result (command_of "StaticCheckHandler")
      "static checks deferred (command runner not implemented)",
  c,
)

-- `candidate.get("agent_run_id") or context.coding_agent_run_id`; a run id is a text.
unfoldable pub agent_run_id : Fields → String → Option String
agent_run_id candidate current =
    let given = get_or "agent_run_id" null candidate in
    if truthy given then as_text given else some current

module _ (os : Platform) (host : Host) where
  unfoldable pub check_design : ChainRequest → ChainContext → Handling
  check_design request c =
      let self = check_of "StrategicDesignGateHandler" in
      let design = get_or "strategic_design" null request.metadata in
      if not (truthy design)
      then some (
        fail_result self ("strategic design not provided" ∷ []) true []
            ("supply request.metadata.strategic_design with >=2 options" ∷ []),
        c,
      )
      else elim (host.parse_design design) [
        | none ↦ none
        | some review ↦ some (
          from_gates self (strategic_programming_gate review ∷ []) false,
          record c { strategic = some review },
        )
      ]

  -- The branch with no candidate.
  unfoldable pub await_agent : ChainRequest → ChainContext → Handling
  await_agent request c =
      let given = get_or "coding_agent_run_id" null request.metadata in
      if not (truthy given)
      then some (
        fail_result agent_invocation
            ("no agent adapter configured; live Claude Code invocation deferred" ∷ []) true [] [],
        c,
      )
      else elim (as_text given) [
        | none ↦ none
        | some run_id ↦ some (
          skip_result agent_invocation
              "live agent invocation deferred; capturing pre-existing working-tree changes",
          record c { coding_agent_run_id = run_id },
        )
      ]

  -- The two files of the agent's output, and the candidate in the shared state.
  unfoldable pub keep_output : Fields → ChainContext → ChainContext
  keep_output candidate c =
      let said = λ (key : String). str_of host.repr (get_or key (text "") candidate) in
      let (summary, c1) =
        write_quarantined os "agent_summary.md" (said "summary") "AgentInvocationHandler" c in
      let (log, c2) =
        write_quarantined os "raw_agent_output.log" (said "raw_output") "AgentInvocationHandler"
          c1 in
      record c2 { shared = set_field "candidate" (object candidate) c2.shared }

  unfoldable pub invoke_agent : ChainRequest → ChainContext → Handling
  unfolding keep_output await_agent agent_run_id
  invoke_agent request c =
      let candidate = get_or "manual_candidate" null request.metadata in
      if not (truthy candidate) then await_agent request c else elim (as_object candidate) [
        | none ↦ none
        | some fields ↦ elim (agent_run_id fields c.coding_agent_run_id) [
          | none ↦ none
          | some run_id ↦ some (
            ok_result agent_invocation HandlerDecision.go_on [] [] (
                field "used_as_evidence" (bool false)
                  (field "claimed_status" (text "IGNORED") end)),
            record (keep_output fields c) { coding_agent_run_id = run_id },
          )
        ]
      ]

  unfoldable pub check_scope : ChainRequest → ChainContext → Handling
  check_scope request c = some (
    from_gates (check_of "ScopeDiffHandler")
        (scope_gate os.fnmatch c.changed_files (scope_of request) ∷ []) false,
    c,
  )

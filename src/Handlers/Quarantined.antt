-- ===== src/Handlers/Quarantined.antt =====
-- Agent output is context, never evidence.
use agent_analysis.Prelude.{
  true, ◌≡◌, ◌≢◌, ◌↔◌, refl, List, [], ◌∷◌, none, some, All, arith, basename, eq_iff, if◌then◌else◌,
  is_none,
}
use agent_analysis.Platform.{Platform}
use agent_analysis.Schemas.Ledger.{LedgerEntry}
use agent_analysis.Schemas.Chain.{ChainRequest, HandlerResult, HandlerStatus}
use agent_analysis.Chains.Context.{ChainContext, write_quarantined}
use agent_analysis.Agents.Runtime.{AgentInvocationResult}
use agent_analysis.Agents.Parsing.{Parser, quarantine_output}
use agent_analysis.Handlers.Base.{Handling, ok_result, fail_result, skip_result}
use agent_analysis.Handlers.Host.{Host}
use agent_analysis.Handlers.Implementation.{
  leaked_output, check_quarantine, await_agent, keep_output, invoke_agent,
}
use agent_analysis.Handlers.Analysis.Analyst.{AnalystServices, settle_analyst, parse_analyst_output}

-- `h` adds nothing to the evidence of `c`, nor to what a verifier reads of its run.
abbrev pub AddsNoEvidence : ChainContext → Handling → Type 0
AddsNoEvidence c h =
    (result : HandlerResult) (c' : ChainContext)
    → h ≡ some (result, c')
    → (c'.evidence ≡ c.evidence)
      × (c'.artifacts ≡ c.artifacts)
      × (c'.test_outcomes ≡ c.test_outcomes)
      × (c'.changed_files ≡ c.changed_files)
      × (c'.repo ≡ c.repo)

-- The artifact is no quarantined agent output, by its base name.
abbrev pub IsNoOutput : LedgerEntry → Type 0
IsNoOutput e =
    (basename e.artifact_path ≢ "agent_summary.md")
    × (basename e.artifact_path ≢ "raw_agent_output.log")

leaked_output_iff : (es : List LedgerEntry) → (leaked_output es ≡ none) ↔ All IsNoOutput es
unfolding leaked_output
leaked_output_iff [] = (λ e. tt, λ h. refl)
leaked_output_iff (e ∷ es) =
    let rest = leaked_output_iff es in
    let summary = eq_iff (basename e.artifact_path) "agent_summary.md" in
    let raw = eq_iff (basename e.artifact_path) "raw_agent_output.log" in
    (λ h. (ground arith, rest.0 (ground arith)), λ h. let r = rest.1 h.1 in ground arith)

-- The quarantine check passes exactly when no ledger entry is quarantined agent output, and sets the
-- context's flag exactly then; it changes no evidence.
pub check_quarantine-pass_iff :
    (request : ChainRequest) (c : ChainContext) {result : HandlerResult} {c' : ChainContext}
    → check_quarantine request c ≡ some (result, c')
    → ((result.status ≡ HandlerStatus.pass) ↔ All IsNoOutput c.evidence.ledger.ledger_entries)
      × (c'.agent_summary_quarantined ≡ (
          if is_none (leaked_output c.evidence.ledger.ledger_entries)
          then true
          else c.agent_summary_quarantined))
      × (c'.evidence ≡ c.evidence)
unfolding check_quarantine ok_result fail_result
check_quarantine-pass_iff request c e =
    let entries = leaked_output_iff c.evidence.ledger.ledger_entries in
    (
      (λ p. entries.0 (ground arith), λ h. let none_leaked = entries.1 h in ground arith),
      ground arith,
      ground arith,
    )

module _ (os : Platform) where
  invoke_agent-AddsNoEvidence :
      (host : Host) (request : ChainRequest) (c : ChainContext)
      → AddsNoEvidence c (invoke_agent os host request c)
  unfolding invoke_agent await_agent keep_output write_quarantined ok_result fail_result skip_result
  invoke_agent-AddsNoEvidence host request c result c' e = ground arith

  settle_analyst-AddsNoEvidence :
      (services : AnalystServices) (r : AgentInvocationResult) (c : ChainContext)
      → AddsNoEvidence c (settle_analyst os services r c)
  unfolding settle_analyst quarantine_output write_quarantined ok_result fail_result
  settle_analyst-AddsNoEvidence services r c result c' e = ground arith

  parse_analyst_output-AddsNoEvidence :
      (services : AnalystServices) (parser : Parser) (request : ChainRequest) (c : ChainContext)
      → AddsNoEvidence c (parse_analyst_output os services parser request c)
  unfolding parse_analyst_output write_quarantined ok_result fail_result skip_result
  parse_analyst_output-AddsNoEvidence services parser request c result c' e = ground arith

  -- The steps that take the output of an agent, which are the coding agent step, the quarantine of an
  -- analyst's answer and the parse of that answer, leave the ledger, the recorded artifacts, the test
  -- outcomes, the changed files and the working tree as they were, on each of their branches.
  pub agent_output-AddsNoEvidence :
      (host : Host) (services : AnalystServices) (parser : Parser) (r : AgentInvocationResult)
      (request : ChainRequest) (c : ChainContext)
      → AddsNoEvidence c (invoke_agent os host request c)
        × AddsNoEvidence c (settle_analyst os services r c)
        × AddsNoEvidence c (parse_analyst_output os services parser request c)
  agent_output-AddsNoEvidence host services parser r request c = (
    invoke_agent-AddsNoEvidence host request c,
    settle_analyst-AddsNoEvidence services r c,
    parse_analyst_output-AddsNoEvidence services parser request c,
  )

-- ===== src/Witnesses/Stages.antt =====
-- The handlers of the families, on concrete data.
use agent_analysis.Prelude.{
  has_text, ◌≤◌, ◌↔◌, ◌≡◌, ◌≢◌, ◌⊎◌, refl, String, true, [], ◌∷◌, none, some, length, pos, lines,
  is_zero,
}
use agent_analysis.Schemas.Json.{
  truthy, set_field, Value, int, text, array, object, cons, nil, end, field, flag, get_or,
  get_field, texts,
}
use agent_analysis.Schemas.Chain.{ChainRequest, HandlerStatus, HandlerResult}
use agent_analysis.Chains.Context.{ChainContext, record_artifact, write_quarantined}
use agent_analysis.Storage.ArtifactStore.{write}
use agent_analysis.Storage.EvidenceWriter.{append, append_artifact}
use agent_analysis.Handlers.Base.{Identity, Handling}
use agent_analysis.Handlers.Commands.{command_of, recorded, log_request, gather_evidence}
use agent_analysis.Handlers.Verification.{report_verdict}
use agent_analysis.Agents.Runtime.{AgentInvocationResult, AgentStatus}
use agent_analysis.Handlers.Implementation.{invoke_agent}
use agent_analysis.Agents.Parsing.{Parser, parse_structured_output}
use agent_analysis.Handlers.Analysis.Analyst.{settle_analyst, parse_analyst_output}
use agent_analysis.Handlers.Quarantined.{AddsNoEvidence, agent_output-AddsNoEvidence}
use agent_analysis.Schemas.Reading.{all_zero, as_object, any_failed, iterate, as_text}
use agent_analysis.Handlers.Reproduction.{
  read_logs, exit_field, outcome_of, outcomes_of, report_tests, settle_tests, run_tests,
  report_reproduction, settle_reproduction, run_reproduction,
}
use agent_analysis.Handlers.Evidenced.{IsReproduced, run_reproduction-pass_iff}
use agent_analysis.Handlers.Dependency.{run_build}
use agent_analysis.Handlers.Documentation.{verify_diff, verify_documentation}
use agent_analysis.Handlers.Certified.Diff.{IsVerifiedDiff, verify_documentation-pass_iff}
use agent_analysis.Handlers.Security.{
  secret_patterns, dangerous_sinks, report_scan, scan_secrets, scan_sinks,
}
use agent_analysis.Handlers.Security.Scanned.{IsClean, scans-pass_iff}
use agent_analysis.Handlers.CiFailure.{failing_lines, parsed_log}
use agent_analysis.Handlers.CiFailure.Bounds.{AreMarked, failing_lines_bounds}
use agent_analysis.Handlers.Accounted.{IsAccounted, IsRefused, run_tests-accounts}
use agent_analysis.Witnesses.Samples.{os, request}
use agent_analysis.Witnesses.Machines.{host, analyst_services, parser, context, no_result, or_else}

-- A request with the output of an agent.
abbrev offered : ChainRequest
offered = record request {
  metadata =
      field "manual_candidate"
        (object (
          field "summary" (text "done")
            (field "raw_output" (text "all tests pass") (field "agent_run_id" (text "run-a") end))))
        end;
}

-- An answer of the analyst, its reading, and the context in which it is parsed.
abbrev answer : AgentInvocationResult
answer = record {
  status = AgentStatus.ok;
  text = "{}";
  call = none;
  reason = "";
  model_id_used = "coder-1";
}

abbrev reading : Parser
reading = record parser {
  loads = λ raw. some (object end);
  validate = λ fields.
      some (record { summary = "ready"; risks = []; recommended_actions = []; confidence = "0.5" });
}

abbrev advised : ChainContext
advised = record context { shared = field "agent_raw_output" (text "{}") end }

agent_output-AddsNoEvidence_example :
    AddsNoEvidence advised (invoke_agent os host offered advised)
    × AddsNoEvidence advised (settle_analyst os analyst_services answer advised)
    × AddsNoEvidence advised (parse_analyst_output os analyst_services reading offered advised)
agent_output-AddsNoEvidence_example =
    agent_output-AddsNoEvidence os host analyst_services reading answer offered advised

-- The three take their branch with an output.
abbrev left_by : Handling → ChainContext
left_by none = context
left_by (some (result, c')) = c'

parsed_output :
    ((left_by (invoke_agent os host offered advised)).coding_agent_run_id ≡ "run-a")
    × ((left_by (settle_analyst os analyst_services answer advised)).coding_agent_run_id
        ≡ "coder-1")
    × (get_field "analysis_agent"
          (left_by (parse_analyst_output os analyst_services reading offered advised)).shared
        ≡ some (text "ready"))
unfolding invoke_agent settle_analyst parse_analyst_output parse_structured_output truthy get_or
    as_object as_text has_text set_field write_quarantined
parsed_output = (refl, refl, refl)

abbrev log : Value
log = object (field "command" (text "pytest") (field "exit_code" (int (pos 1)) end))

-- A request whose caller supplies the outcome of a test that failed.
abbrev tested : ChainRequest
tested = record request { metadata = field "test_outcomes" (array (cons log nil)) end }

abbrev tests_result : HandlerResult × ChainContext
tests_result = or_else no_result (run_tests os host tested context)

tests_ran : run_tests os host tested context ≡ some tests_result
unfolding run_tests settle_tests report_tests gather_evidence read_logs outcomes_of outcome_of
    exit_field all_zero flag get_or iterate as_text is_zero log_request record_artifact
    append_artifact append write
tests_ran = refl

run_tests-accounts_example :
    ((tests_result.0.status ≡ HandlerStatus.pass)
      × IsAccounted os host tested context tests_result.1)
    ⊎ ((tests_result.0.status ≢ HandlerStatus.pass)
        × IsRefused os host tested context tests_result.1)
run_tests-accounts_example = run_tests-accounts os host tested context tests_ran

abbrev self : Identity
self = command_of "FailureReproductionHandler"

abbrev reproduction_result : HandlerResult × ChainContext
reproduction_result =
    or_else no_result
      (run_reproduction os host self tested context (object tested.metadata) "repro.log" "required")

reproduced :
    run_reproduction os host self tested context (object tested.metadata) "repro.log" "required"
    ≡ some reproduction_result
unfolding run_reproduction settle_reproduction report_reproduction gather_evidence any_failed flag
    get_or iterate as_text is_zero log_request record_artifact append_artifact append write
reproduced = refl

run_reproduction-pass_iff_example :
    ((reproduction_result.0.status ≡ HandlerStatus.pass)
      ↔ IsReproduced os host context (object tested.metadata))
    × (reproduction_result.1.test_outcomes ≡ context.test_outcomes)
run_reproduction-pass_iff_example =
    run_reproduction-pass_iff os host self tested context (object tested.metadata) "repro.log"
      "required" reproduced

-- A request whose build is a command of the machine.
abbrev built : ChainRequest
built = record request { metadata = field "build_commands" (array (cons (text "make") nil)) end }

abbrev build_result : HandlerResult × ChainContext
build_result = or_else no_result (run_build os host built context)

abbrev docs_result : HandlerResult × ChainContext
docs_result = or_else no_result (verify_documentation os request context)

docs_verified : verify_documentation os request context ≡ some docs_result
unfolding verify_documentation verify_diff report_verdict record_artifact append_artifact append
    write
docs_verified = refl

verify_documentation-pass_iff_example : (docs_result.0.status ≡ HandlerStatus.pass) ↔ (
    (context.agent_summary_quarantined ≡ true) × IsVerifiedDiff os "doc-verifier" request context)
verify_documentation-pass_iff_example =
    verify_documentation-pass_iff os request context docs_verified

-- A context with a changed file.
abbrev changed : ChainContext
changed = record context { changed_files = "a.py" ∷ [] }

abbrev secrets_result : HandlerResult × ChainContext
secrets_result = or_else no_result (scan_secrets os host request changed)

abbrev sinks_result : HandlerResult × ChainContext
sinks_result = or_else no_result (scan_sinks os host request changed)

secrets_scanned : scan_secrets os host request changed ≡ some secrets_result
unfolding scan_secrets report_scan recorded log_request record_artifact append_artifact append write
secrets_scanned = refl

sinks_scanned : scan_sinks os host request changed ≡ some sinks_result
unfolding scan_sinks report_scan recorded log_request record_artifact append_artifact append write
sinks_scanned = refl

scans-pass_iff_example :
    ((secrets_result.0.status ≡ HandlerStatus.pass) ↔ IsClean host secret_patterns changed)
    × ((sinks_result.0.status ≡ HandlerStatus.pass) ↔ IsClean host dangerous_sinks changed)
scans-pass_iff_example = scans-pass_iff os host request changed secrets_scanned sinks_scanned

abbrev ci_log : String
ci_log = "running\n1 FAILED"

failing_lines_bounds_example :
    AreMarked (lines ci_log) (failing_lines ci_log)
    × (length (failing_lines ci_log) ≤ length (lines ci_log))
    × (get_field "failing_lines" (parsed_log end ci_log)
        ≡ some (array (texts (failing_lines ci_log))))
    × (get_field "log_lines" (parsed_log end ci_log) ≡ some (int (pos (length (lines ci_log)))))
failing_lines_bounds_example = failing_lines_bounds end ci_log

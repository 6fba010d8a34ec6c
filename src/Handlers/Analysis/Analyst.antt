-- ===== src/Handlers/Analysis/Analyst.antt =====
-- The analyst step and its parser (AnalysisAgentInvocationHandler and StructuredOutputParserHandler of
-- backend/app/handlers/analysis.py).
use agent_analysis.Prelude.{
  String, true, false, ◌==◌, List, [], ◌∷◌, Option, none, some, ◌>>=◌, if◌then◌else◌, ◌+s◌, is_nil,
  is_none, prefix,
}
use agent_analysis.Platform.{Platform}
use agent_analysis.Schemas.Json.{
  Value, bool, float, text, array, end, field, get_field, set_field, texts,
}
use agent_analysis.Schemas.Reading.{as_text}
use agent_analysis.Schemas.Models.{ModelRole, ModelSpec}
use agent_analysis.Schemas.Chain.{ChainRequest, HandlerDecision}
use agent_analysis.Chains.Context.{ChainContext, write_quarantined}
use agent_analysis.Tools.{ToolRegistry, ToolStatus, get_tool, run_tool}
use agent_analysis.Llm.Recorder.{Recorder}
use agent_analysis.Llm.Router.{Providers}
use agent_analysis.Agents.Runtime.{AgentInvocationResult, AgentStatus, invoke_runtime}
use agent_analysis.Agents.Parsing.{Parser, parse_structured_output, quarantine_output}
use agent_analysis.Handlers.Base.{Handling, Identity, ok_result, fail_result, skip_result}
use agent_analysis.Handlers.Commands.{command_of}

-- The services of the run that the analyst step reads from the context, and what it takes from
-- Python.
pub record AnalystServices : Type 0 where
  -- context.agent_specs, context.agent_adapters
  pub specs : List ModelSpec
  pub providers : Providers
  -- context.tool_registry with context.tool_policy, where both are given
  pub tools : Option ToolRegistry
  -- str(context.repo_fs_path)
  pub repo_path : String
  -- json.dumps(value)
  pub dump_line : Value → String

-- `_AGENT_TOOLS`
abbrev pub agent_tools : List String
agent_tools =
    "list_repo_tree" ∷ "discover_commands" ∷ "inspect_ci_config" ∷ "inspect_dependencies" ∷ []

unfoldable pub tool_status_value : ToolStatus → String
tool_status_value ToolStatus.ok = "OK"
tool_status_value ToolStatus.blocked = "BLOCKED"
tool_status_value ToolStatus.failed = "FAILED"

abbrev pub analyst : Identity
analyst = command_of "AnalysisAgentInvocationHandler"

module _ (os : Platform) (services : AnalystServices) where
  -- The loop over the tools: a tool that the registry lacks is passed over.
  unfoldable pub run_tools :
      ToolRegistry → ChainRequest → List String → ChainContext → Option (List String × ChainContext)
  unfolding tool_status_value
  run_tools tools request [] c = some ([], c)
  run_tools tools request (name ∷ names) c =
      if is_none (get_tool name tools) then run_tools tools request names c else (do
        ran ← run_tool os tools name request.mode services.repo_path c
        let line =
            name
            +s ": "
            +s tool_status_value (ran.0).status
            +s " ("
            +s prefix 12 (ran.0).artifact_hash
            +s ")"
        rest ← run_tools tools request names ran.1
        some (line ∷ rest.0, rest.1))

  unfoldable pub summarize_tools : ChainRequest → ChainContext → Option (List String × ChainContext)
  summarize_tools request c = elim services.tools [
    | none ↦ some ([], c)
    | some tools ↦ run_tools tools request agent_tools c
  ]

  unfoldable pub analyst_prompt : List String → Value → String
  analyst_prompt summaries readiness =
      "Assess this repository's AI-readiness. Respond as strict JSON with keys summary, risks, recommended_actions, confidence.\ntool_runs: "
      +s services.dump_line (array (texts summaries))
      +s "\nreadiness: "
      +s services.dump_line readiness

  -- The recorder over the context's store and ledger.
  unfoldable pub recorder_of : ChainContext → Recorder
  recorder_of c = record {
    run_id = c.request.run_id;
    task_id = c.request.task_id;
    store = c.store;
    evidence = c.evidence;
    counter = 0;
    clock = c.clock;
  }

  -- What follows the invocation.
  unfoldable pub settle_analyst : AgentInvocationResult → ChainContext → Handling
  settle_analyst result c = elim result.status [
    | AgentStatus.blocked ↦ some (fail_result analyst (result.reason ∷ []) true [] [], c)
    | AgentStatus.ok ↦ some (
      ok_result analyst HandlerDecision.go_on [] [] (
          field "used_as_evidence" (bool false) (field "model_id" (text result.model_id_used) end)),
      (let c' =
            quarantine_output os result.text
              "Advisory analyst output (context only, never evidence)."
              "AnalysisAgentInvocationHandler" c in
          record c' {
            shared = set_field "agent_raw_output" (text result.text) c'.shared;
            coding_agent_run_id =
                if result.model_id_used == "" then "analysis-agent" else result.model_id_used;
          }),
    )
  ]

  unfoldable pub invoke_analyst : ChainRequest → ChainContext → Handling
  invoke_analyst request c =
      if is_nil services.specs
      then some (skip_result analyst "no analysis agent configured; deterministic analysis only", c)
      else (do
        ran ← summarize_tools request c
        let d = ran.1
        called ←
            invoke_runtime os services.providers services.specs ModelRole.analyst
              (analyst_prompt ran.0 d.readiness_report) (recorder_of d)
        let r = called.1
        settle_analyst called.0
            (record d { store = r.store; evidence = r.evidence; clock = r.clock }))

  unfoldable pub parse_analyst_output : Parser → ChainRequest → ChainContext → Handling
  parse_analyst_output parser request c =
      let self = command_of "StructuredOutputParserHandler" in
      elim (get_field "agent_raw_output" c.shared) [
        | none ↦ some (skip_result self "no agent output to parse (agent step skipped)", c)
        | some raw ↦ (do
          source ← as_text raw
          (elim (parse_structured_output parser source) [
            | none ↦ some (
              fail_result self
                  ("malformed structured model output; cannot validate analyst response" ∷ []) true
                  [] [],
              c,
            )
            | some parsed ↦ some (
              ok_result self HandlerDecision.go_on [] []
                  (field "confidence" (float parsed.confidence) end),
              (let (art, c') =
                    write_quarantined os "structured_agent_output.json" (parser.dump_text parsed)
                      "StructuredOutputParserHandler" c in
                  record c' { shared = set_field "analysis_agent" (parser.dump parsed) c'.shared }),
            )
          ]))
      ]

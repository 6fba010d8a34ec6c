-- ===== src/Handlers/Plain/Analysis.antt =====
-- The analysis handlers leave the verdict and the pull request to others.
use agent_analysis.Prelude.{
  String, ◌≡◌, List, some, arith, Option-cases, inl, inr, [], ◌∷◌, is_none, Bool-cases,
}
use agent_analysis.Platform.{Platform}
use agent_analysis.Schemas.Json.{get_field}
use agent_analysis.Schemas.Ledger.{ArtifactType}
use agent_analysis.Schemas.Models.{ModelRole}
use agent_analysis.Schemas.Chain.{ChainRequest}
use agent_analysis.Chains.Context.{ChainContext, record_artifact, write_quarantined}
use agent_analysis.Tools.{Tool, ToolRegistry, ToolResult, run_tool, run_allowed, get_tool}
use agent_analysis.Agents.Runtime.{AgentInvocationResult, invoke_runtime}
use agent_analysis.Agents.Parsing.{Parser, quarantine_output}
use agent_analysis.Handlers.Base.{Identity, ok_result, fail_result, skip_result}
use agent_analysis.Handlers.Control.{check_of}
use agent_analysis.Handlers.Commands.{command_of, recorded}
use agent_analysis.Handlers.Analysis.{
  report_as, inventory_repo, find_commands, inventory_ci, inventory_dependencies, check_read_only,
  score_readiness, assess_strategy, generate_findings, update_backlog,
}
use agent_analysis.Handlers.Analysis.Analyst.{
  AnalystServices, agent_tools, analyst, run_tools, summarize_tools, settle_analyst, invoke_analyst,
  parse_analyst_output, recorder_of, analyst_prompt,
}
use agent_analysis.Handlers.Plain.{Settles, IsPlain}

module _ (os : Platform) where
  report_as-Settles :
      (self : Identity) (name payload : String) (type : ArtifactType) (command : String)
      (c : ChainContext)
      → Settles self c (report_as os self name payload type command c)
  unfolding report_as recorded record_artifact ok_result get_field
  report_as-Settles self name payload type command c result c' e = ground arith

  pub inventory_repo-IsPlain : IsPlain (command_of "RepoInventoryHandler") (inventory_repo os)
  unfolding inventory_repo
  inventory_repo-IsPlain request c = report_as-Settles _ _ _ _ _ _

  pub find_commands-IsPlain : IsPlain (command_of "CommandDiscoveryHandler") (find_commands os)
  unfolding find_commands recorded record_artifact ok_result get_field
  find_commands-IsPlain request c result c' e = ground arith

  pub inventory_ci-IsPlain : IsPlain (command_of "CIInventoryHandler") (inventory_ci os)
  unfolding inventory_ci recorded record_artifact ok_result get_field
  inventory_ci-IsPlain request c result c' e = ground arith

  pub inventory_dependencies-IsPlain :
      IsPlain (command_of "DependencyInventoryHandler") (inventory_dependencies os)
  unfolding inventory_dependencies recorded record_artifact ok_result get_field
  inventory_dependencies-IsPlain request c result c' e = ground arith

  pub check_read_only-IsPlain : IsPlain (check_of "ReadOnlyComplianceHandler") (check_read_only os)
  unfolding check_read_only ok_result fail_result get_field
  check_read_only-IsPlain request c result c' e = ground arith

  pub score_readiness-IsPlain :
      IsPlain (command_of "AIReadinessScoringHandler") (score_readiness os)
  unfolding score_readiness recorded record_artifact ok_result get_field
  score_readiness-IsPlain request c result c' e = ground arith

  pub assess_strategy-IsPlain :
      IsPlain (check_of "StrategicProgrammingAssessmentHandler") (assess_strategy os)
  unfolding assess_strategy
  assess_strategy-IsPlain request c = report_as-Settles _ _ _ _ _ _

  pub generate_findings-IsPlain :
      IsPlain (command_of "BacklogFindingGeneratorHandler") (generate_findings os)
  unfolding generate_findings
  generate_findings-IsPlain request c = report_as-Settles _ _ _ _ _ _

  pub update_backlog-IsPlain : IsPlain (command_of "BacklogUpdateHandler") (update_backlog os)
  unfolding update_backlog
  update_backlog-IsPlain request c = report_as-Settles _ _ _ _ _ _

module _ (os : Platform) (services : AnalystServices) where
  run_allowed-keeps :
      (t : Tool) (name path : String) (c c' : ChainContext) (r : ToolResult)
      → run_allowed os t name path c ≡ some (r, c')
      → c'.verifier_decision ≡ c.verifier_decision
  unfolding run_allowed record_artifact
  run_allowed-keeps t name path c c' r e = ground arith

  run_tool-keeps :
      (tools : ToolRegistry) (name : String) (request : ChainRequest) (c c' : ChainContext)
      (r : ToolResult)
      → run_tool os tools name request.mode services.repo_path c ≡ some (r, c')
      → c'.verifier_decision ≡ c.verifier_decision
  unfolding run_tool
  run_tool-keeps tools name request c c' r e = elim (Option-cases (get_tool name tools)) [
    | inl f ↦ ground arith
    | inr (t, f) ↦ ground (arith, run_allowed-keeps t name services.repo_path c c' r)
  ]

  run_tools-keeps :
      (tools : ToolRegistry) (request : ChainRequest) (names : List String) (c c' : ChainContext)
      (lines : List String)
      → run_tools os services tools request names c ≡ some (lines, c')
      → c'.verifier_decision ≡ c.verifier_decision
  unfolding run_tools
  run_tools-keeps tools request [] c c' lines e = ground arith
  run_tools-keeps tools request (name ∷ names) c c' lines e =
      elim (Bool-cases (is_none (get_tool name tools))) [
        | inl n ↦ run_tools-keeps tools request names c c' lines (ground arith)
        | inr n ↦ elim (Option-cases (run_tool os tools name request.mode services.repo_path c)) [
          | inl f ↦ ground arith
          | inr ((r, d), f) ↦ elim (Option-cases (run_tools os services tools request names d)) [
            | inl g ↦ ground arith
            | inr ((ls, d'), g) ↦ ground (
              arith,
              run_tool-keeps tools name request c d r f,
              run_tools-keeps tools request names d d' ls g,
            )
          ]
        ]
      ]

  summarize_tools-keeps :
      (request : ChainRequest) (c c' : ChainContext) (lines : List String)
      → summarize_tools os services request c ≡ some (lines, c')
      → c'.verifier_decision ≡ c.verifier_decision
  unfolding summarize_tools
  summarize_tools-keeps request c c' lines e = elim (Option-cases services.tools) [
    | inl f ↦ ground arith
    | inr (tools, f) ↦ ground (arith, run_tools-keeps tools request agent_tools c c' lines)
  ]

  settle_analyst-Settles :
      (r : AgentInvocationResult) (c : ChainContext)
      → Settles analyst c (settle_analyst os services r c)
  unfolding settle_analyst quarantine_output write_quarantined ok_result fail_result get_field
  settle_analyst-Settles r c result c' e = ground arith

  pub invoke_analyst-IsPlain : IsPlain analyst (invoke_analyst os services)
  unfolding invoke_analyst skip_result get_field
  invoke_analyst-IsPlain request c result c' e =
      elim (Option-cases (summarize_tools os services request c)) [
        | inl f ↦ ground arith
        | inr ((lines, d), f) ↦
            elim (Option-cases (
              invoke_runtime os services.providers services.specs ModelRole.analyst
                (analyst_prompt os services lines d.readiness_report)
                (recorder_of os services d))) [
                  | inl g ↦ ground arith
                  | inr ((called, r), g) ↦ ground (
                    arith,
                    summarize_tools-keeps request c d lines f,
                    settle_analyst-Settles called
                        (record d { store = r.store; evidence = r.evidence; clock = r.clock })
                        result c',
                  )
                ]
      ]

  pub parse_analyst_output-IsPlain :
      (parser : Parser)
      → IsPlain
          (command_of "StructuredOutputParserHandler")
          (parse_analyst_output os services parser)
  unfolding parse_analyst_output write_quarantined ok_result fail_result skip_result get_field
  parse_analyst_output-IsPlain parser request c result c' e = ground arith

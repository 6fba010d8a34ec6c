-- ===== src/Agents/Parsing.antt =====
-- Agent output as context (backend/app/parsing/quarantine.py, structured_parser.py).
use agent_analysis.Prelude.{String, List, Option, none, some, if◌then◌else◌, not, has_text}
use agent_analysis.Platform.{Platform}
use agent_analysis.Schemas.Json.{Value, Fields, object}
use agent_analysis.Chains.Context.{ChainContext, write_quarantined}

pub record AnalysisAgentOutput : Type 0 where
  pub summary : String
  pub risks : List String
  pub recommended_actions : List String
  pub confidence : String

-- json, and pydantic's reading and printing of AnalysisAgentOutput.
pub record Parser : Type 0 where
  -- json.loads(raw); `none` is a JSONDecodeError
  pub loads : String → Option Value
  -- AnalysisAgentOutput.model_validate(payload); `none` is a ValidationError
  pub validate : Fields → Option AnalysisAgentOutput
  -- parsed.model_dump(), parsed.model_dump_json(indent=2)
  pub dump : AnalysisAgentOutput → Value
  pub dump_text : AnalysisAgentOutput → String

unfoldable pub parse_structured_output : Parser → String → Option AnalysisAgentOutput
parse_structured_output parser raw =
    if not (has_text raw)
    then none
    else elim (parser.loads raw) [ some (object payload) ↦ parser.validate payload | _ ↦ none ]

-- quarantine_agent_output(context, …)
unfoldable pub quarantine_output : Platform → String → String → String → ChainContext → ChainContext
quarantine_output os raw summary recorded_by c =
    let (first, c1) = write_quarantined os "raw_agent_output.log" raw recorded_by c in
    let (second, c2) = write_quarantined os "agent_summary.md" summary recorded_by c1 in c2

-- ===== src/Tools.antt =====
-- The controlled tools (backend/app/tools/registry.py, policy.py, executor.py). A tool's run is a
-- parameter.
pub mod Controlled
use agent_analysis.Prelude.{
  ℕ, String, Bool, true, false, not, ◌==◌, ◌&&◌, ◌+s◌, List, [], ◌∷◌, Option, none, some,
  if◌then◌else◌, member, ℤ, pos,
}
use agent_analysis.Platform.{Platform}
use agent_analysis.Schemas.Constants.{RunType, is_implementation}
use agent_analysis.Schemas.Ledger.{ArtifactType, LedgerResult}
use agent_analysis.Chains.Context.{ChainContext, ArtifactRequest, record_artifact}

-- `FORBIDDEN_TOOL_NAMES`
abbrev pub forbidden_tool_names : List String
forbidden_tool_names =
    "merge" ∷ "deploy" ∷ "push_to_main" ∷ "force_pass" ∷ "delete_repo" ∷ "publish_package" ∷ []

-- What a tool does: it returns a text, raises, or returns something else.
pub data Outcome : Type 0 where
  output : String → Outcome
  raised : String → Outcome
  not_text : Outcome

pub record Tool : Type 0 where
  pub name : String
  pub run : String → Outcome
  pub mutating : Bool

-- The dict `_tools`, in the order of the first insertions.
abbrev pub ToolRegistry : Type 0
ToolRegistry = List Tool

-- self._tools[tool.name] = tool
unfoldable pub put : Tool → ToolRegistry → ToolRegistry
put t [] = t ∷ []
put t (u ∷ us) = if u.name == t.name then t ∷ us else u ∷ put t us

-- `none` is the ValueError on a forbidden name.
unfoldable pub register_tool : Tool → ToolRegistry → Option ToolRegistry
unfolding put
register_tool t tools = if member t.name forbidden_tool_names then none else some (put t tools)

-- ToolRegistry(tools)
unfoldable pub register_all : List Tool → ToolRegistry → Option ToolRegistry
unfolding register_tool
register_all [] tools = some tools
register_all (t ∷ ts) tools = elim (register_tool t tools) [
  | none ↦ none
  | some tools' ↦ register_all ts tools'
]

unfoldable pub get_tool : String → ToolRegistry → Option Tool
get_tool name [] = none
get_tool name (t ∷ ts) = if t.name == name then some t else get_tool name ts

pub data PolicyDecision : Type 0 where
  allowed not_registered not_allowed_for_run_type forbidden : PolicyDecision

-- The decision and its reason.
unfoldable pub decide : ToolRegistry → String → RunType → PolicyDecision × String
unfolding get_tool
decide tools tool_name run_type =
    if member tool_name forbidden_tool_names
    then (PolicyDecision.forbidden, "tool '" +s tool_name +s "' is forbidden")
    else elim (get_tool tool_name tools) [
      | none ↦ (PolicyDecision.not_registered, "tool '" +s tool_name +s "' is not registered")
      | some t ↦
          if t.mutating && not (is_implementation run_type)
          then (
            PolicyDecision.not_allowed_for_run_type,
            "mutating tool '" +s tool_name +s "' not allowed in read-only run",
          )
          else (PolicyDecision.allowed, "")
    ]

pub data ToolStatus : Type 0 where
  ok blocked failed : ToolStatus

pub record ToolResult : Type 0 where
  pub tool_name : String
  pub status : ToolStatus
  pub policy_decision : PolicyDecision
  pub input_hash : String
  pub output_hash : String
  pub artifact_path : String
  pub artifact_hash : String
  pub exit_code : ℤ
  pub reason : String

-- A result with no artifact.
unfoldable pub without_artifact :
    String → ToolStatus → PolicyDecision → String → ℤ → String → ToolResult
without_artifact tool_name status decision input_hash exit_code reason = record {
  tool_name = tool_name;
  status = status;
  policy_decision = decision;
  input_hash = input_hash;
  output_hash = "";
  artifact_path = "";
  artifact_hash = "";
  exit_code = exit_code;
  reason = reason;
}

unfoldable pub tool_request : String → String → ArtifactRequest
tool_request tool_name printed = record {
  name = "tool_" +s tool_name +s ".log";
  data_text = printed;
  artifact_type = ArtifactType.command_output;
  result = LedgerResult.info;
  command = "tool:" +s tool_name;
  recorded_by = "tool_executor";
}

module _ (os : Platform) where
  -- A tool that the policy allows; the policy found it in the registry.
  unfoldable pub run_allowed :
      Tool → String → String → ChainContext → Option (ToolResult × ChainContext)
  unfolding without_artifact tool_request
  run_allowed t tool_name repo_path c =
      let input_hash = os.sha256 (tool_name +s "|" +s repo_path) in
      elim (t.run repo_path) [
        | Outcome.raised why ↦ some (
          without_artifact tool_name ToolStatus.failed PolicyDecision.allowed input_hash (pos 1)
              ("tool execution failed: " +s why),
          c,
        )
        | Outcome.not_text ↦ some (
          without_artifact tool_name ToolStatus.failed PolicyDecision.allowed input_hash (pos 1)
              "tool did not return text output",
          c,
        )
        | Outcome.output printed ↦ elim (record_artifact os (tool_request tool_name printed) c) [
          | none ↦ none
          | some (artifact, c') ↦ some (
            if artifact.hash == ""
                then without_artifact tool_name ToolStatus.failed PolicyDecision.allowed input_hash
                    (pos 0) "tool output was not hashed"
                else record {
                  tool_name = tool_name;
                  status = ToolStatus.ok;
                  policy_decision = PolicyDecision.allowed;
                  input_hash = input_hash;
                  output_hash = artifact.hash;
                  artifact_path = artifact.path;
                  artifact_hash = artifact.hash;
                  exit_code = pos 0;
                  reason = "";
                },
            c',
          )
        ]
      ]

  -- ToolExecutor(tools, ToolPolicy(tools)).run(context, tool_name, run_type); `none` is an exception
  -- of the ledger. `repo_path` is the context's `repo_fs_path`.
  unfoldable pub run_tool :
      ToolRegistry → String → RunType → String → ChainContext → Option (ToolResult × ChainContext)
  unfolding without_artifact
  run_tool tools tool_name run_type repo_path c =
      let (decision, reason) = decide tools tool_name run_type in
      let refusal =
        some (without_artifact tool_name ToolStatus.blocked decision "" (pos 0) reason, c) in
      elim decision [
        | PolicyDecision.allowed ↦ elim (get_tool tool_name tools) [
          | none ↦ none
          | some t ↦ run_allowed t tool_name repo_path c
        ]
        | _ ↦ refusal
      ]

-- ===== src/Handlers/Commands.antt =====
-- The evidence of a command run: what the caller supplies, or a run of allowlisted commands. It is the
-- part that TestRunnerHandler, run_reproduction (backend/app/handlers/implementation.py) and
-- BuildHandler (backend/app/handlers/dependency.py) have in common.
use agent_analysis.Prelude.{
  String, List, [], ◌∷◌, Option, none, some, ◌>>=◌, if◌then◌else◌, is_nil, not, ◌+s◌, join,
}
use agent_analysis.Platform.{Platform}
use agent_analysis.Schemas.Constants.{RunType}
use agent_analysis.Schemas.Json.{
  Value, Items, Fields, null, bool, int, text, array, object, nil, cons, end, field, truthy, get_or,
}
use agent_analysis.Schemas.Reading.{iterate, texts_of, listed}
use agent_analysis.Schemas.Chain.{ChainRequest}
use agent_analysis.Runners.Sandbox.{
  Captured, decoded, raw, CommandResult, SandboxPolicy, build_policy, run_command,
}
use agent_analysis.Chains.Context.{ChainContext, ArtifactRequest}
use agent_analysis.Schemas.Ledger.{Artifact, ArtifactType, LedgerResult}
use agent_analysis.Schemas.Chain.{HandlerResult, HandlerType}
use agent_analysis.Handlers.Base.{Handling, Identity}
use agent_analysis.Handlers.Host.{Host, Tree}

abbrev pub command_of : String → Identity
command_of name = record { name = name; handler_type = HandlerType.read_only_command }

-- The last steps of most handlers: record an artifact, then return a result that may name it.
unfoldable pub recorded : Option (Artifact × ChainContext) → (Artifact → HandlerResult) → Handling
recorded none result = none
recorded (some (artifact, c)) result = some (result artifact, c)

-- The arguments of `record_artifact`.
unfoldable pub log_request :
    Identity → String → String → ArtifactType → String → LedgerResult → ArtifactRequest
log_request self name data_text type command result = record {
  name = name;
  data_text = data_text;
  artifact_type = type;
  result = result;
  command = command;
  recorded_by = self.name;
}

-- The logs and the rejections of a run of commands, and the tree that it leaves. The logs are `none`
-- where one of them holds bytes: `json.dumps(logs)`, which follows where nothing was rejected, then
-- raises.
pub record CommandRuns : Type 0 where
  pub logs : Option Items
  pub rejected : List String
  pub tree : Tree

pub data Evidence : Type 0 where
  missing : Evidence
  refused : List String → Tree → Evidence
  gathered : Value → Value → Tree → Evidence

-- A stream as JSON; bytes have none.
unfoldable pub stream_value : Captured → Option Value
stream_value (decoded s) = some (text s)
stream_value (raw bytes) = none

-- The entry that the loop appends to `logs`.
unfoldable pub log_entry : CommandResult → Option Value
unfolding stream_value
log_entry r = do
  stdout ← stream_value r.stdout
  stderr ← stream_value r.stderr
  some (
      object (
        field "command" (text r.command) (
          field "exit_code" (elim r.exit_code [ none ↦ null | some code ↦ int code ])
            (field "timed_out" (bool r.timed_out)
              (field "stdout" stdout (field "stderr" stderr end))))))

-- The policy of the commands of a handler.
unfoldable pub command_policy : ChainRequest → List String → List String → SandboxPolicy
unfolding build_policy
command_policy request allowed forbidden = build_policy RunType.implementation (record {
  files_in_scope = request.scope.files_in_scope;
  files_out_of_scope = [];
  allowed_commands = allowed;
  forbidden_commands = forbidden;
  workspace_path = "";
})

module _ (os : Platform) (host : Host) where
  -- runner.run(cmd), and the tree after it.
  unfoldable pub run_one : SandboxPolicy → String → Tree → CommandResult × Tree
  run_one policy command tree =
      let (result, ran) =
        run_command os.fnmatch (λ line. (host.shell tree line).0) policy command in
      (result, if is_nil ran then tree else (host.shell tree command).1)

  -- The loop over the commands.
  unfoldable pub run_each : SandboxPolicy → List String → Tree → CommandRuns
  unfolding run_one log_entry
  run_each policy [] tree = record { logs = some nil; rejected = []; tree = tree }
  run_each policy (command ∷ commands) tree =
      let (result, tree') = run_one policy command tree in
      let rest = run_each policy commands tree' in
      if result.rejected
      then record rest { rejected = (command +s ": " +s result.reason) ∷ rest.rejected }
      else record rest {
        logs = (do entry ← log_entry result; logs ← rest.logs; some (cons entry logs));
      }

  -- `outcomes` are what the caller supplies, with the command that it reports; `commands` are what is
  -- run without them.
  unfoldable pub gather_evidence :
      ChainRequest → Fields → Value → Value → Value → Tree → Option Evidence
  unfolding run_each command_policy
  gather_evidence request meta outcomes command commands tree =
      if truthy outcomes
      then some (Evidence.gathered outcomes command tree)
      else if not (truthy commands)
      then some Evidence.missing
      else (do
        names ← iterate commands
        lines ← texts_of names
        allowed ← listed (get_or "allowed_commands" commands meta)
        forbidden ← listed (get_or "forbidden_commands" (array nil) meta)
        let runs = run_each (command_policy request allowed forbidden) lines tree
        (if is_nil runs.rejected
            then (do
              logs ← runs.logs
              some (Evidence.gathered (array logs) (text (join "; " lines)) runs.tree))
            else some (Evidence.refused runs.rejected runs.tree)))

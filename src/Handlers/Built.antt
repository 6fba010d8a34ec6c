-- ===== src/Handlers/Built.antt =====
-- When the build passes.
use agent_analysis.Prelude.{false, ◌≡◌, Option, some}
use agent_analysis.Platform.{Platform}
use agent_analysis.Schemas.Json.{Value, Items, Fields, null, text, get_or, flag}
use agent_analysis.Schemas.Reading.{iterate}
use agent_analysis.Schemas.Chain.{ChainRequest}
use agent_analysis.Chains.Context.{ChainContext}
use agent_analysis.Handlers.Host.{Host, Tree}
use agent_analysis.Handlers.Commands.{Evidence, gather_evidence}
use agent_analysis.Handlers.Gathered.{IsGathered}
use agent_analysis.Handlers.Evidenced.{HasFailure}

module _ (os : Platform) (host : Host) where
  -- The evidence of a build.
  abbrev build_evidence : ChainRequest → ChainContext → Option Evidence
  build_evidence request c =
      gather_evidence os host request request.metadata
        (get_or "build_outcomes" null request.metadata)
        (get_or "build_command" (text "build") request.metadata)
        (get_or "build_commands" null request.metadata) c.repo

  -- What the evidence of a build is.
  abbrev pub IsBuild : Fields → ChainContext → Value → Value → Tree → Type 0
  IsBuild meta c logs command left =
      IsGathered os host meta (get_or "build_outcomes" null meta)
        (get_or "build_command" (text "build") meta) (get_or "build_commands" null meta) c.repo logs
        command left

  -- There are logs, of the caller or of commands that may be used and that the shell ran, and none has
  -- an exit code other than zero.
  pub record IsBuilt (request : ChainRequest) (c : ChainContext) : Type 0 where
    pub applies : flag "build_not_applicable" request.metadata ≡ false
    pub logs : Value
    pub command : Value
    pub tree : Tree
    pub gathers : IsBuild request.metadata c logs command tree
    pub items : Items
    pub lists : iterate logs ≡ some items
    pub holds : HasFailure items → ⊥

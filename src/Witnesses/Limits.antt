-- ===== src/Witnesses/Limits.antt =====
-- The state machine and the sandbox, on concrete data.
use agent_analysis.Prelude.{
  ◌↔◌, ◌≡◌, ◌⊎◌, ◌<◌, refl, String, true, [], ◌∷◌, none, some, length, pos,
}
use agent_analysis.Schemas.Constants.{RunType}
use agent_analysis.Schemas.GateResult.{passed}
use agent_analysis.Machine.{order, next_state, terminal_state, transition_guard}
use agent_analysis.Machine.Order.{Reaches, reaches_stops}
use agent_analysis.Machine.Guard.{CanLeave, transition_guard-passed_iff}
use agent_analysis.Runners.Sandbox.{SandboxPolicy, PolicyRequest, build_policy, Completion}

refined : Reaches RunType.implementation "REFINE" 1
unfolding next_state
refined = Reaches.step Reaches.start refl

reaches_stops_example :
    (1 < length (order RunType.implementation))
    × ((("REFINE" ≡ terminal_state) × (next_state RunType.implementation "REFINE" ≡ some none))
        ⊎ ((s' : String) × (next_state RunType.implementation "REFINE" ≡ some (some s'))
            × Reaches RunType.implementation s' 2))
reaches_stops_example = reaches_stops RunType.implementation "REFINE" 1 refined

transition_guard-passed_iff_example :
    (passed (
        transition_guard RunType.implementation "MEMORY_UPDATE"
          ("run/memory_update_skip_reason.json" ∷ []))
      ≡ true)
    ↔ CanLeave RunType.implementation "MEMORY_UPDATE" ("run/memory_update_skip_reason.json" ∷ [])
transition_guard-passed_iff_example =
    transition_guard-passed_iff RunType.implementation "MEMORY_UPDATE"
      ("run/memory_update_skip_reason.json" ∷ [])

abbrev sandbox : PolicyRequest
sandbox = record {
  files_in_scope = "a.py" ∷ [];
  files_out_of_scope = "secret.py" ∷ [];
  allowed_commands = "pytest" ∷ [];
  forbidden_commands = "rm" ∷ [];
  workspace_path = "/srv";
}

abbrev shell : String → Completion
shell command = Completion.completed (pos 0) "ok" ""

abbrev policy : SandboxPolicy
policy = build_policy RunType.implementation sandbox

-- ===== src/Handlers/Ran.antt =====
-- What the run of a list of commands leaves, said of the policy and of what the shell does.
use agent_analysis.Prelude.{
  String, Bool, true, false, ◌≡◌, ◌≢◌, ◌↔◌, refl, sym, ap, ◌∙◌, subst, List, [], ◌∷◌, some,
  some_injective, arith, Option-cases, Bool-cases, inl, inr, ◌⊎◌, ◌>>=◌, if◌then◌else◌, iff_trans,
  eq_iff,
}
use agent_analysis.Platform.{Platform}
use agent_analysis.Schemas.GateResult.{passed}
use agent_analysis.Schemas.Json.{Value, Items, null, bool, int, text, object, nil, cons, end, field}
use agent_analysis.Schemas.Chain.{ChainRequest}
use agent_analysis.Runners.Sandbox.{
  Completion, CommandResult, SandboxPolicy, build_policy, pattern_matches, check_command, or_text,
  run_command,
}
use agent_analysis.Runners.Sandbox.Permits.{MayRun, check_command_iff}
use agent_analysis.Handlers.Host.{Host, Tree}
use agent_analysis.Handlers.Commands.{
  CommandRuns, stream_value, log_entry, command_policy, run_one, run_each,
}

-- The command matches no forbidden pattern and, unless there is no allowlist, a pattern of it.
abbrev MayUse : (String → String → Bool) → List String → List String → String → Type 0
MayUse fnmatch allowed forbidden command =
    (pattern_matches fnmatch command forbidden ≡ false)
    × (allowed ≢ [] → pattern_matches fnmatch command allowed ≡ true)

-- The log of a command that ended, with its exit code; and of one that timed out, which has none and
-- has written nothing, since bytes cannot be logged.
abbrev IsLogOf : String → Completion → Value → Type 0
IsLogOf command (Completion.completed code out err) log =
    log
    ≡ object (
        field "command" (text command) (
          field "exit_code" (int code) (
            field "timed_out" (bool false)
              (field "stdout" (text out) (field "stderr" (text err) end)))))
IsLogOf command (Completion.expired out err) log =
    (out ≡ "")
    × (err ≡ "")
    × (log
        ≡ object (
            field "command" (text command) (
              field "exit_code" null (
                field "timed_out" (bool true)
                  (field "stdout" (text "") (field "stderr" (text "") end))))))

Completion-cases :
    (k : Completion)
    → ((code : _) × (out : String) × (err : String) × (k ≡ Completion.completed code out err))
      ⊎ ((out : String) × (err : String) × (k ≡ Completion.expired out err))
Completion-cases (Completion.completed code out err) = inl (code, out, err, refl)
Completion-cases (Completion.expired out err) = inr (out, err, refl)

module _ (os : Platform) (host : Host) where
  -- Each of the commands may be used, and the shell runs them in order, each on the tree that the one
  -- before has left; each has one log.
  abbrev pub Runs : List String → List String → Tree → List String → Items → Tree → Type 0
  Runs allowed forbidden tree [] logs left = (logs ≡ nil) × (left ≡ tree)
  Runs allowed forbidden tree (command ∷ commands) logs left =
      MayUse os.fnmatch allowed forbidden command
      × (log : Value) × (rest : Items) × IsLogOf command (host.shell tree command).0 log
      × (logs ≡ cons log rest)
      × Runs allowed forbidden (host.shell tree command).1 commands rest left

  -- What the loop knows of one command.
  abbrev Ran : List String → List String → String → Tree → CommandResult × Tree → Type 0
  Ran allowed forbidden command tree (result, left) =
      (MayUse os.fnmatch allowed forbidden command
        × (result.rejected ≡ false)
        × ((log : Value)
            → (log_entry result ≡ some log) ↔ IsLogOf command (host.shell tree command).0 log)
        × (left ≡ (host.shell tree command).1))
      ⊎ ((MayUse os.fnmatch allowed forbidden command → ⊥) × (result.rejected ≡ true))

  MayUse-iff :
      (request : ChainRequest) (allowed forbidden : List String) (command : String)
      → MayRun os.fnmatch (command_policy request allowed forbidden) command
        ↔ MayUse os.fnmatch allowed forbidden command
  unfolding command_policy build_policy
  MayUse-iff request allowed forbidden command = (
    λ m. (m.not_forbidden, m.allowlisted),
    λ u. record { not_forbidden = u.0; allowlisted = u.1 },
  )

  run_one-Ran :
      (request : ChainRequest) (allowed forbidden : List String) (command : String) (tree : Tree)
      → Ran allowed forbidden command tree
          (run_one os host (command_policy request allowed forbidden) command tree)
  unfolding run_one run_command log_entry stream_value or_text
  run_one-Ran request allowed forbidden command tree =
      let policy = command_policy request allowed forbidden in
      let may =
        iff_trans (check_command_iff os.fnmatch policy command)
          (MayUse-iff request allowed forbidden command) in
      elim (Bool-cases (passed (check_command os.fnmatch policy command))) [
        | inr f ↦ rw (f, run_one, run_command) (inr (λ u. cc (f, may.1 u), refl))
        | inl t ↦ elim (Completion-cases (host.shell tree command).0) [
          | inl (code, out, err, e) ↦
              rw (t, e, run_one, run_command)
                (inl (
                  may.0 t,
                  refl,
                  (λ log. (λ h. sym (some_injective h), λ h. ap some (sym h))),
                  refl,
                ))
          | inr (out, err, e) ↦
              rw (t, e, run_one, run_command)
                (inl (
                  may.0 t,
                  refl,
                  λ log.
                      let no_out = eq_iff out "" in
                      let no_err = eq_iff err "" in (λ h. ground arith, λ h. ground arith),
                  refl,
                ))
        ]
      ]

  -- The round of a command that was not rejected.
  abbrev logged : CommandResult → CommandRuns → CommandRuns
  logged result rest = record rest {
    logs = (do entry ← log_entry result; logs ← rest.logs; some (cons entry logs));
  }

  run_each-logged :
      (policy : SandboxPolicy) (command : String) (commands : List String) (tree : Tree)
      → (run_one os host policy command tree).0.rejected ≡ false
      → (run_one os host policy command tree).1 ≡ (host.shell tree command).1
      → run_each os host policy (command ∷ commands) tree
        ≡ logged
            (run_one os host policy command tree).0
            (run_each os host policy commands (host.shell tree command).1)
  unfolding run_each
  run_each-logged policy command commands tree kept stays =
      let (result, left) = run_one os host policy command tree in
      rw (kept, run_each, if◌then◌else◌)
        (ap (λ t. logged result (run_each os host policy commands t)) stays)

  run_each-rejects :
      (policy : SandboxPolicy) (command : String) (commands : List String) (tree : Tree)
      → (run_one os host policy command tree).0.rejected ≡ true
      → (run_each os host policy (command ∷ commands) tree).rejected ≢ []
  unfolding run_each
  run_each-rejects policy command commands tree t e = cc (rw (t, run_each, if◌then◌else◌) at e)

  pub run_each-Runs :
      (request : ChainRequest) (allowed forbidden : List String) (commands : List String)
      (tree : Tree) (run : CommandRuns) {logs : Items}
      → run_each os host (command_policy request allowed forbidden) commands tree ≡ run
      → run.rejected ≡ []
      → run.logs ≡ some logs
      → Runs allowed forbidden tree commands logs run.tree
  unfolding run_each
  run_each-Runs request allowed forbidden [] tree run made clean e = (
    some_injective (sym e ∙ ap (λ (r : CommandRuns). r.logs) (sym made)),
    ap (λ (r : CommandRuns). r.tree) (sym made),
  )
  run_each-Runs request allowed forbidden (command ∷ commands) tree run {logs} made clean e =
      let policy = command_policy request allowed forbidden in
      let result = (run_one os host policy command tree).0 in
      let rest = run_each os host policy commands (host.shell tree command).1 in
      elim (run_one-Ran request allowed forbidden command tree) [
        | inr (never, rejected) ↦ absurd (
            run_each-rejects policy command commands tree rejected
              (ap (λ (r : CommandRuns). r.rejected) made ∙ clean))
        | inl (may, kept, entry, stays) ↦
            let step = sym made ∙ run_each-logged policy command commands tree kept stays in
            let steps = sym (ap (λ (r : CommandRuns). r.logs) step) ∙ e in
            elim (Option-cases (log_entry result)) [
              | inl f ↦ cc (rw (f, ◌>>=◌) at steps)
              | inr (log, f) ↦ elim (Option-cases rest.logs) [
                | inl g ↦ cc (rw (f, g, ◌>>=◌) at steps)
                | inr (later, g) ↦ (
                  may,
                  log,
                  later,
                  (entry log).0 f,
                  sym (some_injective (rw (f, g, ◌>>=◌) at steps)),
                  subst (λ t. Runs allowed forbidden (host.shell tree command).1 commands later t)
                      (sym (ap (λ (r : CommandRuns). r.tree) step))
                      (run_each-Runs request allowed forbidden commands (host.shell tree command).1
                        rest refl (sym (ap (λ (r : CommandRuns). r.rejected) step) ∙ clean) g),
                )
              ]
            ]
      ]

  pub Runs-run_each :
      (request : ChainRequest) (allowed forbidden : List String) (commands : List String)
      (tree : Tree) (logs : Items) (left : Tree)
      → Runs allowed forbidden tree commands logs left
      → run_each os host (command_policy request allowed forbidden) commands tree
        ≡ (record { logs = some logs; rejected = []; tree = left })
  unfolding run_each
  Runs-run_each request allowed forbidden [] tree logs left (e, f) = rw (e, f) refl
  Runs-run_each request allowed forbidden (command ∷ commands) tree logs left
        (may_use, log, rest, is, e, more) =
      let policy = command_policy request allowed forbidden in
      elim (run_one-Ran request allowed forbidden command tree) [
        | inr (never, rejected) ↦ absurd (never may_use)
        | inl (may, kept, entry, stays) ↦
            let later =
              Runs-run_each request allowed forbidden commands (host.shell tree command).1 rest left
                more in
            run_each-logged policy command commands tree kept stays
            ∙ rw (later, (entry log).1 is, e, ◌>>=◌) refl
      ]

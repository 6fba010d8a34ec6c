-- ===== src/Handlers/Gathered.antt =====
-- What evidence the test runner, a reproduction and the build have, said of the request and of what the
-- shell does.
use agent_analysis.Prelude.{
  String, true, false, ◌≡◌, ◌↔◌, refl, sym, ap, ◌∙◌, subst, List, [], Option, some, Option-cases,
  Bool-cases, inl, inr, ◌⊎◌, ◌>>=◌, if◌then◌else◌, not, is_nil, is_nil_iff, join,
}
use agent_analysis.Platform.{Platform}
use agent_analysis.Schemas.Json.{Value, Items, Fields, text, array, nil, truthy, get_or}
use agent_analysis.Schemas.Reading.{iterate, texts_of, listed}
use agent_analysis.Schemas.Chain.{ChainRequest}
use agent_analysis.Handlers.Host.{Host, Tree}
use agent_analysis.Handlers.Commands.{
  CommandRuns, Evidence, command_policy, run_each, gather_evidence,
}
use agent_analysis.Handlers.Ran.{Runs, run_each-Runs, Runs-run_each}

module _ (os : Platform) (host : Host) where
  -- A run of the commands of a request: they are texts, all may be used, and the logs are those of the
  -- shell, with the commands joined as the command that is reported.
  pub record HasRun (meta : Fields) (commands : Value) (tree : Tree) (logs command : Value)
      (left : Tree) : Type 0 where
    pub names : Items
    pub lists : iterate commands ≡ some names
    pub lines : List String
    pub reads : texts_of names ≡ some lines
    pub allowed : List String
    pub allows : listed (get_or "allowed_commands" commands meta) ≡ some allowed
    pub forbidden : List String
    pub forbids : listed (get_or "forbidden_commands" (array nil) meta) ≡ some forbidden
    pub items : Items
    pub runs : Runs os host allowed forbidden tree lines items left
    pub logged_as : logs ≡ array items
    pub joined : command ≡ text (join "; " lines)

  -- The evidence: the outcomes of the caller, where there are any, with the command that the caller
  -- names and no run; or else a run of the commands of the request.
  abbrev pub IsGathered : Fields → Value → Value → Value → Tree → Value → Value → Tree → Type 0
  IsGathered meta outcomes given commands tree logs command left =
      ((truthy outcomes ≡ true) × (logs ≡ outcomes) × (command ≡ given) × (left ≡ tree))
      ⊎ ((truthy outcomes ≡ false)
          × (truthy commands ≡ true)
          × HasRun meta commands tree logs command left)

  gathered_parts :
      {l k m n : Value} {s t : Tree}
      → ◌≡◌ {A = Option Evidence} (some (Evidence.gathered l m s)) (some (Evidence.gathered k n t))
      → (l ≡ k) × (m ≡ n) × (s ≡ t)
  gathered_parts e = (cc, cc, cc)

  -- The last step of the gathering.
  settled_run :
      (run : CommandRuns) (lines : List String) {ev : Evidence}
      → (if is_nil run.rejected
          then (do
            logs ← run.logs
            some (Evidence.gathered (array logs) (text (join "; " lines)) run.tree))
          else some (Evidence.refused run.rejected run.tree))
        ≡ some ev
      → {logs command : Value} {left : Tree} → ev ≡ Evidence.gathered logs command left
      → (items : Items) × (run.rejected ≡ [])
        × (run.logs ≡ some items)
        × (◌≡◌ {A = Option Evidence}
            (some (Evidence.gathered (array items) (text (join "; " lines)) run.tree))
            (some (Evidence.gathered logs command left)))
  settled_run run lines e g = elim (Bool-cases (is_nil run.rejected)) [
    | inr f ↦ cc (rw (f, if◌then◌else◌) at e, g)
    | inl t ↦ elim (Option-cases run.logs) [
      | inl f ↦ cc (rw (t, f, if◌then◌else◌, ◌>>=◌) at e)
      | inr (items, f) ↦ (
        items,
        (is_nil_iff run.rejected).0 t,
        f,
        rw (t, f, if◌then◌else◌, ◌>>=◌) at e ∙ ap some g,
      )
    ]
  ]

  ran_from :
      (request : ChainRequest) (meta : Fields) (outcomes given commands : Value) (tree : Tree)
      (logs command : Value) (left : Tree)
      → truthy outcomes ≡ false
      → truthy commands ≡ true
      → gather_evidence os host request meta outcomes given commands tree
        ≡ some (Evidence.gathered logs command left)
      → HasRun meta commands tree logs command left
  unfolding gather_evidence
  ran_from request meta outcomes given commands tree logs command left f t e =
      elim (Option-cases (iterate commands)) [
        | inl g ↦ cc (rw (f, t, g, gather_evidence, if◌then◌else◌, not, ◌>>=◌) at e)
        | inr (names, g) ↦ elim (Option-cases (texts_of names)) [
          | inl h ↦ cc (rw (f, t, g, h, gather_evidence, if◌then◌else◌, not, ◌>>=◌) at e)
          | inr (lines, h) ↦
              elim (Option-cases (listed (get_or "allowed_commands" commands meta))) [
                | inl k ↦ cc (rw (f, t, g, h, k, gather_evidence, if◌then◌else◌, not, ◌>>=◌) at e)
                | inr (allowed, k) ↦
                    elim (Option-cases (listed (get_or "forbidden_commands" (array nil) meta))) [
                      | inl m ↦
                          cc
                            (rw (f, t, g, h, k, m, gather_evidence, if◌then◌else◌, not, ◌>>=◌) at e)
                      | inr (forbidden, m) ↦
                          let run =
                            run_each os host (command_policy request allowed forbidden) lines
                              tree in
                          let (items, clean, logged_items, made) =
                            settled_run run lines
                              (rw (f, t, g, h, k, m, gather_evidence, if◌then◌else◌, not, ◌>>=◌) at
                                e)
                              refl in
                          let (l, n, q) = gathered_parts made in
                          record {
                            names = names;
                            lists = g;
                            lines = lines;
                            reads = h;
                            allowed = allowed;
                            allows = k;
                            forbidden = forbidden;
                            forbids = m;
                            items = items;
                            runs =
                                subst (λ s. Runs os host allowed forbidden tree lines items s) q
                                  (run_each-Runs os host request allowed forbidden lines tree run
                                    refl clean logged_items);
                            logged_as = sym l;
                            joined = sym n;
                          }
                    ]
              ]
        ]
      ]

  -- What is gathered is the evidence.
  pub gather_evidence_iff :
      (request : ChainRequest) (meta : Fields) (outcomes given commands : Value) (tree : Tree)
      (logs command : Value) (left : Tree)
      → (gather_evidence os host request meta outcomes given commands tree
          ≡ some (Evidence.gathered logs command left))
        ↔ IsGathered meta outcomes given commands tree logs command left
  unfolding gather_evidence
  gather_evidence_iff request meta outcomes given commands tree logs command left =
      elim (Bool-cases (truthy outcomes)) [
        | inl t ↦ (
          λ e.
              let (l, m, k) = gathered_parts (rw (t, gather_evidence, if◌then◌else◌) at e) in
              inl (t, sym l, sym m, sym k),
          λ h. elim h [
            | inl (_, l, m, k) ↦ rw (t, gather_evidence, if◌then◌else◌, l, m, k) refl
            | inr (f, _, _) ↦ cc (t, f)
          ],
        )
        | inr f ↦ elim (Bool-cases (truthy commands)) [
          | inr g ↦ (
            λ e. cc (rw (f, g, gather_evidence, if◌then◌else◌, not) at e),
            λ h. elim h [ inl (t, _, _, _) ↦ cc (t, f) | inr (_, t, _) ↦ cc (t, g) ],
          )
          | inl t ↦ (
            λ e.
                inr (
                  f,
                  t,
                  ran_from request meta outcomes given commands tree logs command left f t e,
                ),
            λ h. elim h [
              | inl (u, _, _, _) ↦ cc (u, f)
              | inr (_, _, r) ↦
                  let run =
                    Runs-run_each os host request r.allowed r.forbidden r.lines tree r.items left
                      r.runs in
                  rw
                    (
                      f, t, r.lists, r.reads, r.allows, r.forbids, run, gather_evidence,
                      if◌then◌else◌, not, ◌>>=◌, is_nil, r.logged_as, r.joined,
                    )
                    refl
            ],
          )
        ]
      ]

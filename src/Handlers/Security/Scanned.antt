-- ===== src/Handlers/Security/Scanned.antt =====
-- What the scans of a security review find.
use agent_analysis.Prelude.{
  ℕ, ◌+◌, String, false, ◌≡◌, ◌↔◌, refl, iff_trans, List, [], ◌∷◌, some, All, Memᴰ, mem→All,
  All→mem, arith, inl, inr, ◌⊎◌, subst, lines, slashes, select-eq-nil, gather, append-eq-nil,
  is_nil_iff,
}
use agent_analysis.Platform.{Platform}
use agent_analysis.Schemas.Chain.{ChainRequest, HandlerStatus, HandlerResult}
use agent_analysis.Chains.Context.{ChainContext, record_artifact}
use agent_analysis.Handlers.Base.{Identity, ok_result, fail_result}
use agent_analysis.Handlers.Commands.{recorded}
use agent_analysis.Handlers.Host.{Host, Tree, Reading}
use agent_analysis.Handlers.Security.{
  Pattern, secret_patterns, dangerous_sinks, changed_texts, line_findings, findings_from, scan,
  report_scan, scan_secrets, scan_sinks,
}

-- A text in which no line matches a pattern.
abbrev pub IsCleanText : Host → List Pattern → String → Type 0
IsCleanText host patterns source =
    (line : String)
    → Memᴰ line (lines source)
    → (p : Pattern) → Memᴰ p patterns
    → host.search p.1 line ≡ false

-- Every changed file that can be read is clean.
abbrev pub IsClean : Host → List Pattern → ChainContext → Type 0
IsClean host patterns c =
    (path : String)
    → Memᴰ path c.changed_files
    → (source : String) → host.read c.repo (slashes path) ≡ Reading.content source
    → IsCleanText host patterns source

module _ (host : Host) (patterns : List Pattern) where
  line_findings-eq-nil :
      (norm : String) (number : ℕ) (line : String)
      → (line_findings host patterns norm number line ≡ [])
        ↔ ((p : Pattern) → Memᴰ p patterns → host.search p.1 line ≡ false)
  unfolding line_findings
  line_findings-eq-nil norm number line = select-eq-nil _ (λ p. host.search p.1 line) patterns

  findings_from-eq-nil :
      (norm : String) (number : ℕ) (ls : List String)
      → (findings_from host patterns norm number ls ≡ [])
        ↔ All (λ line. ((p : Pattern) → Memᴰ p patterns → host.search p.1 line ≡ false)) ls
  unfolding findings_from
  findings_from-eq-nil norm number [] = (λ e. tt, λ h. refl)
  findings_from-eq-nil norm number (l ∷ ls) =
      let here = line_findings-eq-nil norm number l in
      let rest = findings_from-eq-nil norm (number + 1) ls in
      let parts =
        append-eq-nil (line_findings host patterns norm number l)
          (findings_from host patterns norm (number + 1) ls) in
      (λ e. (here.0 (parts.0 e).0, rest.0 (parts.0 e).1), λ h. parts.1 (here.1 h.0, rest.1 h.1))

  -- The findings of the texts, by their lines.
  texts-eq-nil :
      (fs : List (String × String))
      → (gather (λ f. findings_from host patterns f.0 1 (lines f.1)) fs ≡ [])
        ↔ All
            (λ f.
              All
                (λ line. ((p : Pattern) → Memᴰ p patterns → host.search p.1 line ≡ false))
                (lines f.1))
            fs
  texts-eq-nil [] = (λ e. tt, λ h. refl)
  texts-eq-nil (f ∷ fs) =
      let here = findings_from-eq-nil f.0 1 (lines f.1) in
      let rest = texts-eq-nil fs in
      let parts =
        append-eq-nil (findings_from host patterns f.0 1 (lines f.1))
          (gather (λ f. findings_from host patterns f.0 1 (lines f.1)) fs) in
      (λ e. (here.0 (parts.0 e).0, rest.0 (parts.0 e).1), λ h. parts.1 (here.1 h.0, rest.1 h.1))

Reading-cases :
    (r : Reading)
    → ((source : String) × (r ≡ Reading.content source))
      ⊎ ((r ≡ Reading.no_file) ⊎ (r ≡ Reading.unreadable))
Reading-cases (Reading.content source) = inl (source, refl)
Reading-cases Reading.no_file = inr (inl refl)
Reading-cases Reading.unreadable = inr (inr refl)

-- What holds of the content, where there is one.
abbrev OfContent {κ} : (String → Type κ) → Reading → Type κ
OfContent P r = (source : String) → r ≡ Reading.content source → P source

content_injective : {s t : String} → Reading.content s ≡ Reading.content t → s ≡ t
content_injective e = cc

-- What the changed texts are: the contents of the changed files that can be read.
changed_texts_iff {κ} :
    (host : Host) (tree : Tree) (P : String → Type κ) (paths : List String)
    → All (λ f. P f.1) (changed_texts host tree paths)
      ↔ All (λ path. OfContent P (host.read tree (slashes path))) paths
unfolding changed_texts
changed_texts_iff host tree P [] = (λ h. tt, λ h. tt)
changed_texts_iff host tree P (path ∷ paths) =
    let rest = changed_texts_iff host tree P paths in
    elim (Reading-cases (host.read tree (slashes path))) [
      | inl (source, e) ↦
          rw (e, changed_texts)
            (
              (λ h. (λ t q. subst P (content_injective q) h.0, rest.0 h.1)),
              λ h. (h.0 source refl, rest.1 h.1),
            )
      | inr (inl e) ↦ rw (e, changed_texts) (λ h. (λ t q. cc, rest.0 h), λ h. rest.1 h.1)
      | inr (inr e) ↦ rw (e, changed_texts) (λ h. (λ t q. cc, rest.0 h), λ h. rest.1 h.1)
    ]

module _ (os : Platform) (host : Host) where
  report_scan-pass_iff :
      (self : Identity) (name command label : String) (findings : List String) (c : ChainContext)
      {result : HandlerResult} {c' : ChainContext}
      → report_scan os self name command label findings c ≡ some (result, c')
      → (result.status ≡ HandlerStatus.pass) ↔ (findings ≡ [])
  unfolding report_scan recorded record_artifact ok_result fail_result
  report_scan-pass_iff self name command label findings c e =
      let nothing = is_nil_iff findings in
      (λ h. nothing.0 (ground arith), λ h. let n = nothing.1 h in ground arith)

  -- No pattern matches a line of a changed file exactly where the scan finds nothing.
  scan_iff :
      (patterns : List Pattern) (c : ChainContext)
      → (scan host patterns c ≡ []) ↔ IsClean host patterns c
  unfolding scan
  scan_iff patterns c =
      let texts = texts-eq-nil host patterns (changed_texts host c.repo c.changed_files) in
      let read =
        changed_texts_iff host c.repo
          (λ source.
            All (λ line. (p : Pattern) → Memᴰ p patterns → host.search p.1 line ≡ false)
              (lines source))
          c.changed_files in
      (
        λ e path m source q line k.
            All→mem (λ line. (p : Pattern) → Memᴰ p patterns → host.search p.1 line ≡ false) line
              (lines source)
              (All→mem
                (λ path.
                  OfContent
                    (λ source.
                      All (λ line. (p : Pattern) → Memᴰ p patterns → host.search p.1 line ≡ false)
                        (lines source))
                    (host.read c.repo (slashes path)))
                path c.changed_files (read.0 (texts.0 e)) m source q)
              k,
        λ h. texts.1 (
            read.1 (
              mem→All _ c.changed_files (λ path m source q.
                mem→All _ (lines source) (λ line k. h path m source q line k)))),
      )

  -- The secret scan passes exactly when no line of a changed file that can be read matches a secret
  -- pattern, and the input validation check exactly when none matches a dangerous sink.
  pub scans-pass_iff :
      (request : ChainRequest) (c : ChainContext) {secrets sinks : HandlerResult}
      {c1 c2 : ChainContext}
      → scan_secrets os host request c ≡ some (secrets, c1)
      → scan_sinks os host request c ≡ some (sinks, c2)
      → ((secrets.status ≡ HandlerStatus.pass) ↔ IsClean host secret_patterns c)
        × ((sinks.status ≡ HandlerStatus.pass) ↔ IsClean host dangerous_sinks c)
  unfolding scan_secrets scan_sinks
  scans-pass_iff request c e f = (
    iff_trans (report_scan-pass_iff _ _ _ _ _ c e) (scan_iff secret_patterns c),
    iff_trans (report_scan-pass_iff _ _ _ _ _ c f) (scan_iff dangerous_sinks c),
  )

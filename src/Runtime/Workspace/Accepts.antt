-- ===== src/Runtime/Workspace/Accepts.antt =====
-- Which execution paths the workspace policy accepts.
use agent_analysis.Prelude.{
  String, List, [], ◌∷◌, refl, true, ◌||◌, ◌==◌, eq_iff, ◌≡◌, sym, ◌∙◌, subst, ◌↔◌, none, member,
  Memᴰ, member→mem, mem→member, ◌⊎◌, inl, inr, has_text, arith, Option-cases, Bool-cases,
}
use agent_analysis.Runtime.Workspace.{Paths, Checked, nested_duplicate, resolve}

-- No segment stands right after an equal one, separators apart.
abbrev pub IsFlat : List String → Type 0
IsFlat [] = Unit
IsFlat (a ∷ []) = Unit
IsFlat (a ∷ b ∷ rest) = (a ≡ b → (a ≡ "/") ⊎ (a ≡ "\\")) × IsFlat (b ∷ rest)

nested_duplicate_iff : (parts : List String) → (nested_duplicate parts ≡ none) ↔ IsFlat parts
unfolding nested_duplicate
nested_duplicate_iff [] = (λ e. tt, λ h. refl)
nested_duplicate_iff (a ∷ []) = (λ e. tt, λ h. refl)
nested_duplicate_iff (a ∷ b ∷ rest) =
    let later = nested_duplicate_iff (b ∷ rest) in
    let same = eq_iff a b in
    let slash = eq_iff a "/" in
    let back = eq_iff a "\\" in
    (
      λ e. (
        λ q. elim (Bool-cases (a == "/")) [
          | inl t ↦ inl (slash.0 t)
          | inr f ↦ elim (Bool-cases (a == "\\")) [
            | inl t ↦ inr (back.0 t)
            | inr g ↦ let t = same.1 q in ground arith
          ]
        ],
        later.0 (ground arith),
      ),
      λ h.
          let l = later.1 h.1 in
          elim (Bool-cases (a == b)) [
            | inr f ↦ ground arith
            | inl t ↦ elim (h.0 (same.0 t)) [
              | inl q ↦ let u = slash.1 q in ground arith
              | inr q ↦ let u = back.1 q in ground arith
            ]
          ],
    )

pub record IsAcceptable (paths : Paths) (root path resolved : String) : Type 0 where
  pub written : has_text path ≡ true
  pub flat : IsFlat (paths.parts path)
  pub real : resolved ≡ paths.resolve path
  pub inside : (resolved ≡ paths.resolve root) ⊎ Memᴰ (paths.resolve root) (paths.parents resolved)
  pub exists : paths.exists resolved ≡ true

accepted_test_iff :
    (paths : Paths) (root path resolved : String)
    → (resolve paths root path ≡ Checked.accepted resolved) ↔ (
        (has_text path ≡ true)
        × (nested_duplicate (paths.parts path) ≡ none)
        × (resolved ≡ paths.resolve path)
        × ((paths.resolve path == paths.resolve root
              || member (paths.resolve root) (paths.parents (paths.resolve path)))
            ≡ true)
        × (paths.exists (paths.resolve path) ≡ true))
unfolding resolve
accepted_test_iff paths root path resolved =
    elim (Option-cases (nested_duplicate (paths.parts path))) [
      | inl e ↦ (λ h. ground arith, λ h. ground arith)
      | inr (a, e) ↦ (λ h. ground arith, λ h. ground arith)
    ]

-- The workspace policy accepts a path exactly when it is not blank, has no segment but a separator twice
-- in a row, and resolves to an existing path that is the allowed root or lies below it; the result is that
-- resolved path.
pub resolve_accepts_iff :
    (paths : Paths) (root path resolved : String)
    → (resolve paths root path ≡ Checked.accepted resolved) ↔ IsAcceptable paths root path resolved
resolve_accepts_iff paths root path resolved =
    let tests = accepted_test_iff paths root path resolved in
    let same = eq_iff (paths.resolve path) (paths.resolve root) in
    (
      λ h.
          let (written, flat, real, inside, exists) = tests.0 h in
          record {
            written = written;
            flat = (nested_duplicate_iff (paths.parts path)).0 flat;
            real = real;
            inside = elim (Bool-cases (paths.resolve path == paths.resolve root)) [
              | inl t ↦ inl (real ∙ same.0 t)
              | inr f ↦ inr (
                  subst (λ r. Memᴰ (paths.resolve root) (paths.parents r)) (sym real)
                    (member→mem _ _ (ground arith)))
            ];
            exists = subst (λ r. paths.exists r ≡ true) (sym real) exists;
          },
      λ a. tests.1 (
        a.written,
        (nested_duplicate_iff (paths.parts path)).1 a.flat,
        a.real,
        elim a.inside [
          | inl e ↦ ground (arith, same.1 (sym a.real ∙ e))
          | inr m ↦ ground (
            arith,
            mem→member _ _ (subst (λ r. Memᴰ (paths.resolve root) (paths.parents r)) a.real m),
          )
        ],
        subst (λ r. paths.exists r ≡ true) a.real a.exists,
      ),
    )

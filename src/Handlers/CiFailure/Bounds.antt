-- ===== src/Handlers/CiFailure/Bounds.antt =====
-- What the CI log parser and the classifier keep of a log.
use agent_analysis.Prelude.{
  ◌≤◌, String, Bool, true, ◌≡◌, refl, List, [], ◌∷◌, Memᴰ, arith, inl, inr, ◌⊎◌, length, lines,
  strip, select, any, Bool-cases, lower, codes, occurs_in, if◌then◌else◌, any→mem, mem→any, some,
  pos,
}
use agent_analysis.Schemas.Json.{Fields, get_field, array, texts, int}
use agent_analysis.Handlers.CiFailure.{
  parsed_log, failure_markers, is_failing_line, failing_lines, classify,
}

length-select {ℓ κ} :
    {A : Type ℓ} {B : Type κ} (f : A → B) (test : A → Bool) (xs : List A)
    → length (select f test xs) ≤ length xs
length-select f test [] = omega arith
length-select f test (x ∷ xs) = elim (Bool-cases (test x)) [
  | inl e ↦ rw (e, select) (omega (arith, length-select f test xs))
  | inr e ↦ rw (e, select) (omega (arith, length-select f test xs))
]

-- One of the failure markers occurs in the line, whatever the case.
abbrev pub IsMarked : String → Type 0
IsMarked line =
    (marker : String) × Memᴰ marker failure_markers × (occurs_in (lower marker) (lower line) ≡ true)

-- The texts are the marked ones of the lines, all of them, in order, without the whitespace around them.
pub data AreMarked : List String → List String → Type 0 where
  done : AreMarked [] []
  kept :
      {line : String} {rest found : List String}
      → IsMarked line
      → AreMarked rest found
      → AreMarked (line ∷ rest) (strip line ∷ found)
  passed_over :
      {line : String} {rest found : List String}
      → (IsMarked line → ⊥)
      → AreMarked rest found
      → AreMarked (line ∷ rest) found

select-AreMarked : (ls : List String) → AreMarked ls (select strip is_failing_line ls)
unfolding is_failing_line
select-AreMarked [] = done
select-AreMarked (line ∷ rest) =
    let test = λ (m : String). occurs_in (lower m) (lower line) in
    elim (Bool-cases (any test failure_markers)) [
      | inl t ↦
          rw (t, select, if◌then◌else◌)
            (kept (any→mem test failure_markers t) (select-AreMarked rest))
      | inr f ↦
          rw (f, select, if◌then◌else◌)
            (passed_over (λ (m, j, o). cc (f, mem→any test m failure_markers j o))
              (select-AreMarked rest))
    ]

-- The failing lines that the parser reports are exactly the lines of the log in which a failure marker
-- occurs, in order and stripped; so they are at most as many as the lines of the log, whose number it
-- reports beside them.
pub failing_lines_bounds :
    (ci : Fields) (log : String)
    → AreMarked (lines log) (failing_lines log)
      × (length (failing_lines log) ≤ length (lines log))
      × (get_field "failing_lines" (parsed_log ci log) ≡ some (array (texts (failing_lines log))))
      × (get_field "log_lines" (parsed_log ci log) ≡ some (int (pos (length (lines log)))))
unfolding failing_lines parsed_log get_field
failing_lines_bounds ci log =
    (select-AreMarked (lines log), length-select strip is_failing_line (lines log), refl, refl)

-- A keyword of the category occurs in the text.
abbrev pub Signals : String → String × List String → Type 0
Signals source (category, keywords) =
    (k : String) × Memᴰ k keywords × (occurs_in (codes k) (lower source) ≡ true)

-- The first entry that the text signals gives the category; with none it is UNKNOWN.
abbrev pub IsClassified : String → List (String × List String) → String → Type 0
IsClassified source [] category = category ≡ "UNKNOWN"
IsClassified source (entry ∷ rest) category =
    (Signals source entry × (category ≡ entry.0))
    ⊎ ((Signals source entry → ⊥) × IsClassified source rest category)

-- The category is that of the first classifier of which a keyword occurs in the lower-case text, and
-- UNKNOWN exactly where none does.
pub classify-IsClassified :
    (table : List (String × List String)) (source : String)
    → IsClassified source table (classify table source)
unfolding classify
classify-IsClassified [] source = refl
classify-IsClassified ((category, keywords) ∷ rest) source =
    let test = λ (k : String). occurs_in (codes k) (lower source) in
    elim (Bool-cases (any test keywords)) [
      | inl e ↦ rw (e, if◌then◌else◌) (inl (any→mem test keywords e, refl))
      | inr e ↦
          rw (e, if◌then◌else◌)
            (inr
              (λ (k, m, o). cc (e, mem→any test k keywords m o), classify-IsClassified rest source))
    ]

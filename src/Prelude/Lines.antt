-- ===== src/Prelude/Lines.antt =====
-- Python's line and word splitting on `String`.
use Prim.Native.Char.{Char, code}
use Prim.Native.Nat.{ℕ, zero, suc, Ordering}
use Prim.Native.String.{String, compare}
use mathlib.Core.Bool.{Bool, true, false, not, ◌&&◌, ◌||◌}
use mathlib.Core.Path.{◌≡◌, refl, ap}
use mathlib.Core.List.{List, [], ◌∷◌}
use text.Mathlib.Text.{◌==◌}
use agent_analysis.Prelude.Tests.{nat_eq, if◌then◌else◌}
use agent_analysis.Prelude.Lists.{any}
use agent_analysis.Prelude.Text.{◌+s◌, strip, is_space, begins_with, codes, same_codes}

-- The characters at which `str.splitlines` ends a line.
is_break : ℕ → Bool
is_break n = any (λ m. nat_eq m n) (10 ∷ 11 ∷ 12 ∷ 13 ∷ 28 ∷ 29 ∷ 30 ∷ 133 ∷ 8232 ∷ 8233 ∷ [])

-- `kept` is the line that is being read, `after_cr` that the last character was a carriage return,
-- whose line feed ends no further line.
lines_from : Bool → String → String → List String
unfolding is_break
lines_from after_cr kept String.[] = if kept == "" then [] else kept ∷ []
lines_from after_cr kept (String.◌∷◌ c s) =
    let skipped = after_cr && nat_eq (code c) 10 in
    let ends = is_break (code c) in
    let rest =
      lines_from (nat_eq (code c) 13)
        (if skipped || ends then "" else kept +s String.◌∷◌ c String.[]) s in
    if ends && not skipped then kept ∷ rest else rest

-- s.splitlines()
unfoldable pub lines : String → List String
unfolding lines_from
lines s = lines_from false "" s

newlines_from : Bool → String → String
newlines_from after_cr String.[] = String.[]
newlines_from after_cr (String.◌∷◌ c s) =
    let is_cr = nat_eq (code c) 13 in
    let rest = newlines_from is_cr s in
    if is_cr
    then "\n" +s rest
    else if after_cr && nat_eq (code c) 10
    then rest
    else String.◌∷◌ c rest

-- What a file opened in text mode reads: a carriage return, with a line feed after it or not, is a
-- line feed.
unfoldable pub universal_newlines : String → String
unfolding newlines_from
universal_newlines s = newlines_from false s

-- The text has no carriage return.
abbrev pub HasNoReturn : String → Type 0
HasNoReturn String.[] = Unit
HasNoReturn (String.◌∷◌ c s) = (nat_eq (code c) 13 ≡ false) × HasNoReturn s

newlines_from-id : (s : String) → HasNoReturn s → newlines_from false s ≡ s
unfolding newlines_from
newlines_from-id String.[] h = refl
newlines_from-id (String.◌∷◌ c s) h =
    rw (h.0, newlines_from, if◌then◌else◌) (ap (String.◌∷◌ c) (newlines_from-id s h.1))

pub universal_newlines-id : (s : String) → HasNoReturn s → universal_newlines s ≡ s
unfolding universal_newlines
universal_newlines-id s h = newlines_from-id s h

-- The characters of `s` before the first that passes the test.
before : (Char → Bool) → String → String
before stop String.[] = String.[]
before stop (String.◌∷◌ c s) = elim (stop c) [
  | true ↦ String.[]
  | false ↦ String.◌∷◌ c (before stop s)
]

-- `s.strip().split()[0] if s.strip() else ""`
unfoldable pub first_word : String → String
unfolding before strip is_space
first_word s = before is_space (strip s)

-- s.split("#", 1)[0]
unfoldable pub before_hash : String → String
unfolding before
before_hash s = before (λ c. nat_eq (code c) 35) s

-- s[:n]
unfoldable pub prefix : ℕ → String → String
prefix zero s = String.[]
prefix (suc n) String.[] = String.[]
prefix (suc n) (String.◌∷◌ c s) = String.◌∷◌ c (prefix n s)

-- Each character of a text, as a text.
unfoldable pub characters : String → List String
characters String.[] = []
characters (String.◌∷◌ c s) = String.◌∷◌ c String.[] ∷ characters s

-- s.startswith(p)
unfoldable pub starts : String → String → Bool
unfolding begins_with codes
starts p s = begins_with (codes p) (codes s)

-- `text` ends with `word`, on code points.
unfoldable pub ends_in : List ℕ → List ℕ → Bool
unfolding same_codes
ends_in word [] = same_codes word []
ends_in word (c ∷ s) = same_codes word (c ∷ s) || ends_in word s

-- s.endswith(p)
unfoldable pub ends : String → String → Bool
unfolding ends_in codes
ends p s = ends_in (codes p) (codes s)

-- Path(a) <= Path(b), by their parts.
leq_parts : List String → List String → Bool
leq_parts [] ys = true
leq_parts (x ∷ xs) [] = false
leq_parts (x ∷ xs) (y ∷ ys) =
    let rest = leq_parts xs ys in
    elim (compare x y) [ Ordering.lt ↦ true | Ordering.eq ↦ rest | Ordering.gt ↦ false ]

insert_parts : List String → List (List String) → List (List String)
unfolding leq_parts
insert_parts p [] = p ∷ []
insert_parts p (q ∷ qs) =
    let rest = insert_parts p qs in if leq_parts p q then p ∷ q ∷ qs else q ∷ rest

-- sorted(paths), each path by its parts
unfoldable pub sort_paths : List (List String) → List (List String)
unfolding insert_parts
sort_paths [] = []
sort_paths (p ∷ ps) = insert_parts p (sort_paths ps)

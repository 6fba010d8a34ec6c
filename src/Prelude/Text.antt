-- ===== src/Prelude/Text.antt =====
-- Python's text operations on `String`, by recursion on its characters.
use Prim.Native.Char.{Char, code}
use Prim.Native.Nat.{ℕ, Ordering, ◌+◌, ◌-◌}
use Prim.Native.String.{String, compare, ◌++◌ as append}
use mathlib.Core.Bool.{Bool, true, false, ◌&&◌, ◌||◌}
use mathlib.Core.List.{List, [], ◌∷◌}
use text.Mathlib.Text.{◌==◌}
use agent_analysis.Prelude.Tests.{nat_eq, leb, if◌then◌else◌}
use agent_analysis.Prelude.Lists.{any}

infixl 65 ◌+s◌
-- s + t
abbrev pub ◌+s◌ : String → String → String
s +s t = append s t

-- `name in names`
abbrev pub member : String → List String → Bool
member name names = any (λ n. name == n) names

-- sep.join(parts)
unfoldable pub join : String → List String → String
join sep [] = ""
join sep (p ∷ []) = p
join sep (p ∷ q ∷ rest) = p +s sep +s join sep (q ∷ rest)

-- s.replace("\\", "/")
unfoldable pub slashes : String → String
slashes String.[] = String.[]
slashes (String.◌∷◌ c s) = String.◌∷◌ (if nat_eq (code c) 92 then slash else c) (slashes s)
  where
    slash : Char
    slash = "/"

-- s.rsplit("/", 1)[-1]: the characters after the last slash. `kept` is what stands since the last
-- slash seen, so the last call returns the last part.
rsplit_last : String → String → String
rsplit_last kept String.[] = kept
rsplit_last kept (String.◌∷◌ c s) =
    rsplit_last (if nat_eq (code c) 47 then "" else kept +s String.◌∷◌ c String.[]) s

-- s.rsplit("/", 1)[-1]
unfoldable pub last_part : String → String
unfolding rsplit_last
last_part s = rsplit_last "" s

-- path.replace("\\", "/").rsplit("/", 1)[-1]
unfoldable pub basename : String → String
unfolding slashes rsplit_last
basename path = rsplit_last "" (slashes path)

abbrev in_range : ℕ → ℕ → ℕ → Bool
in_range lo hi n = leb lo n && leb n hi

-- c.isspace()
unfoldable pub is_space : Char → Bool
is_space c =
    in_range 9 13 (code c)
    || in_range 28 32 (code c)
    || nat_eq (code c) 133
    || nat_eq (code c) 160
    || nat_eq (code c) 5760
    || in_range 8192 8202 (code c)
    || in_range 8232 8233 (code c)
    || nat_eq (code c) 8239
    || nat_eq (code c) 8287
    || nat_eq (code c) 12288

-- bool(s.strip()): some character is no whitespace.
unfoldable pub has_text : String → Bool
unfolding is_space
has_text String.[] = false
has_text (String.◌∷◌ c s) = if is_space c then has_text s else true

-- sorted(set(names)): in the order of code points, each name once.
insert_sorted : String → List String → List String
insert_sorted s [] = s ∷ []
insert_sorted s (t ∷ ts) =
    let rest = insert_sorted s ts in
    elim (compare s t) [ Ordering.lt ↦ s ∷ t ∷ ts | Ordering.eq ↦ t ∷ ts | Ordering.gt ↦ t ∷ rest ]

unfoldable pub sorted_set : List String → List String
unfolding insert_sorted
sorted_set [] = []
sorted_set (s ∷ ss) = insert_sorted s (sorted_set ss)

-- s.strip()
strip_left : String → String
unfolding is_space
strip_left String.[] = String.[]
strip_left (String.◌∷◌ c s) = if is_space c then strip_left s else String.◌∷◌ c s

strip_right : String → String
unfolding is_space
strip_right String.[] = String.[]
strip_right (String.◌∷◌ c s) =
    let rest = strip_right s in if is_space c && rest == "" then String.[] else String.◌∷◌ c rest

unfoldable pub strip : String → String
unfolding strip_left strip_right
strip s = strip_right (strip_left s)

-- The code points of a text.
unfoldable pub codes : String → List ℕ
codes String.[] = []
codes (String.◌∷◌ c s) = code c ∷ codes s

lower_code : ℕ → ℕ
lower_code n = if in_range 65 90 n then n + 32 else if nat_eq n 8490 then 107 else n

-- The code points of s.lower(), where they are ASCII letters. The words that the program looks for are
-- ASCII; the Kelvin sign is the only other character whose lower case is part of one of them.
unfoldable pub lower : String → List ℕ
unfolding lower_code
lower String.[] = []
lower (String.◌∷◌ c s) = lower_code (code c) ∷ lower s

-- s == t, on code points
unfoldable pub same_codes : List ℕ → List ℕ → Bool
same_codes [] [] = true
same_codes [] (d ∷ t) = false
same_codes (c ∷ s) [] = false
same_codes (c ∷ s) (d ∷ t) = nat_eq c d && same_codes s t

-- text.startswith(word)
unfoldable pub begins_with : List ℕ → List ℕ → Bool
begins_with [] text = true
begins_with (c ∷ w) [] = false
begins_with (c ∷ w) (d ∷ s) = nat_eq c d && begins_with w s

-- `word in text`
unfoldable pub occurs_in : List ℕ → List ℕ → Bool
unfolding begins_with
occurs_in word [] = begins_with word []
occurs_in word (d ∷ s) = begins_with word (d ∷ s) || occurs_in word s

upper_code : ℕ → ℕ
upper_code n = if in_range 97 122 n then n - 32 else if nat_eq n 305 then 73 else n

-- The code points of s.upper(), where they are ASCII letters; the dotless i is the only other
-- character whose upper case is one.
unfoldable pub upper : String → List ℕ
unfolding upper_code
upper String.[] = []
upper (String.◌∷◌ c s) = upper_code (code c) ∷ upper s

-- ===== src/Prelude/Int.antt =====
-- Python's `int` over the native numbers, and its decimal text.
use Prim.Native.Char.{Char}
use Prim.Native.Nat.{ℕ, zero, suc, ◌+◌, ◌/◌, ◌%◌}
use Prim.Native.String.{String}
use mathlib.Core.Bool.{Bool, true, false}
use agent_analysis.Prelude.Tests.{ltb, leb, if◌then◌else◌}
use agent_analysis.Prelude.Text.{◌+s◌}

-- `negsuc n` is -(n + 1).
pub data ℤ : Type 0 where
  pos : ℕ → ℤ
  negsuc : ℕ → ℤ

-- a <= b
unfoldable pub le_int : ℤ → ℤ → Bool
le_int (pos a) (pos b) = leb a b
le_int (pos a) (negsuc b) = false
le_int (negsuc a) (pos b) = true
le_int (negsuc a) (negsuc b) = leb b a

-- n > 0
unfoldable pub is_positive : ℤ → Bool
is_positive (pos zero) = false
is_positive (pos (suc n)) = true
is_positive (negsuc n) = false

-- n == 0
unfoldable pub is_zero : ℤ → Bool
is_zero (pos zero) = true
is_zero (pos (suc n)) = false
is_zero (negsuc n) = false

-- The digit of a number below ten.
unfoldable pub digit : ℕ → Char
digit zero = "0"
digit (suc zero) = "1"
digit (suc (suc zero)) = "2"
digit (suc (suc (suc zero))) = "3"
digit (suc (suc (suc (suc zero)))) = "4"
digit (suc (suc (suc (suc (suc zero))))) = "5"
digit (suc (suc (suc (suc (suc (suc zero)))))) = "6"
digit (suc (suc (suc (suc (suc (suc (suc zero))))))) = "7"
digit (suc (suc (suc (suc (suc (suc (suc (suc zero)))))))) = "8"
digit (suc (suc (suc (suc (suc (suc (suc (suc (suc n))))))))) = "9"

-- The digits of `n` in front of `tail`; each round drops one digit, so `n + 1` rounds are enough.
unfoldable pub digits_from : ℕ → ℕ → String → String
unfolding digit
digits_from zero n tail = tail
digits_from (suc rounds) n tail =
    let rest = digits_from rounds (n / 10) (String.◌∷◌ (digit (n % 10)) tail) in
    if ltb n 10 then String.◌∷◌ (digit (n % 10)) tail else rest

-- str(n)
unfoldable pub show_nat : ℕ → String
unfolding digits_from
show_nat n = digits_from (n + 1) n ""

-- str(n)
unfoldable pub show_int : ℤ → String
unfolding show_nat
show_int (pos n) = show_nat n
show_int (negsuc n) = "-" +s show_nat (n + 1)

-- f"{n:04d}" and f"{n:02d}": zeros in front, up to the width.
unfoldable pub show_padded4 : ℕ → String
unfolding show_nat
show_padded4 n =
    if ltb n 10
    then "000" +s show_nat n
    else if ltb n 100
    then "00" +s show_nat n
    else if ltb n 1000
    then "0" +s show_nat n
    else show_nat n

unfoldable pub show_padded2 : ℕ → String
unfolding show_nat
show_padded2 n = if ltb n 10 then "0" +s show_nat n else show_nat n

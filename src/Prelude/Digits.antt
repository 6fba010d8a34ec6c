-- ===== src/Prelude/Digits.antt =====
-- Decimal texts determine their numbers.
use Prim.Native.Char.{code}
use Prim.Native.Nat.{ℕ, zero, suc, ◌+◌, ◌-◌, ◌*◌, ◌/◌, ◌%◌, ◌<◌}
use Prim.Native.String.{String}
use mathlib.Core.Path.{◌≡◌, refl, ap, sym, ◌∙◌}
use native.Mathlib.Omega.{arith}
use text.Mathlib.TextLemmas.{nil-append, cons-append}
use agent_analysis.Prelude.Text.{◌+s◌}
use agent_analysis.Prelude.Int.{digit, digits_from, show_nat, show_padded4}

-- int(s), after digits worth `v`.
value_from : ℕ → String → ℕ
value_from v String.[] = v
value_from v (String.◌∷◌ c s) = value_from (v * 10 + (code c - 48)) s

code-digit : (d : ℕ) → d < 10 → code (digit d) ≡ d + 48
unfolding digit
code-digit zero h = refl
code-digit (suc zero) h = refl
code-digit (suc (suc zero)) h = refl
code-digit (suc (suc (suc zero))) h = refl
code-digit (suc (suc (suc (suc zero)))) h = refl
code-digit (suc (suc (suc (suc (suc zero))))) h = refl
code-digit (suc (suc (suc (suc (suc (suc zero)))))) h = refl
code-digit (suc (suc (suc (suc (suc (suc (suc zero))))))) h = refl
code-digit (suc (suc (suc (suc (suc (suc (suc (suc zero)))))))) h = refl
code-digit (suc (suc (suc (suc (suc (suc (suc (suc (suc zero))))))))) h = refl
code-digit (suc (suc (suc (suc (suc (suc (suc (suc (suc (suc n)))))))))) h = absurd (omega arith)

-- One digit in front: reading it continues from the number without its last digit.
value-digit :
    (n : ℕ) (tail : String)
    → value_from (n / 10) (String.◌∷◌ (digit (n % 10)) tail) ≡ value_from n tail
unfolding value_from
value-digit n tail =
    let c = code-digit (n % 10) (omega arith) in
    let e : n / 10 * 10 + (code (digit (n % 10)) - 48) ≡ n = omega arith in
    ap (λ k. value_from k tail) e

value-digits_from :
    (rounds n : ℕ) (tail : String)
    → n < rounds
    → value_from 0 (digits_from rounds n tail) ≡ value_from n tail
unfolding digits_from
value-digits_from zero n tail h = absurd (omega arith)
value-digits_from (suc rounds) n tail h =
    let rest = String.◌∷◌ (digit (n % 10)) tail in
    let last = value-digit n tail in
    let ih = value-digits_from rounds (n / 10) rest in
    ground (arith, ap (λ (k : ℕ). value_from k rest))

value-show_nat : (n : ℕ) → value_from 0 (show_nat n) ≡ n
unfolding show_nat value_from
value-show_nat n = value-digits_from (n + 1) n "" (omega arith)

value-append : (v : ℕ) (s t : String) → value_from v (s +s t) ≡ value_from (value_from v s) t
unfolding value_from
value-append v String.[] t = ap (value_from v) (nil-append t)
value-append v (String.◌∷◌ c s) t =
    ap (value_from v) (cons-append c s t) ∙ value-append (v * 10 + (code c - 48)) s t

value-show_padded4 : (n : ℕ) → value_from 0 (show_padded4 n) ≡ n
unfolding show_padded4 value_from
value-show_padded4 n =
    let three = value-append 0 "000" (show_nat n) in
    let two = value-append 0 "00" (show_nat n) in
    let one = value-append 0 "0" (show_nat n) in let plain = value-show_nat n in ground arith

-- Padded numbers with the same text are equal.
pub show_padded4_injective : (m n : ℕ) → show_padded4 m ≡ show_padded4 n → m ≡ n
show_padded4_injective m n e =
    sym (value-show_padded4 m) ∙ ap (value_from 0) e ∙ value-show_padded4 n

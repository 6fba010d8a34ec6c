-- ===== src/Prelude/Lists.antt =====
-- Lists: tests over all elements, the predicate `All`, and length over the native numbers.
use Prim.Native.Nat.{ℕ, suc, ◌+◌}
use mathlib.Core.Path.{◌≡◌, refl}
use mathlib.Core.Bool.{Bool, true, false, ◌&&◌, ◌||◌}
use mathlib.Core.List.{List, [], ◌∷◌, ◌++◌}
use mathlib.Core.Logic.{◌↔◌}
use native.Mathlib.Omega.{arith}

module _ {ℓ} {A : Type ℓ} where
  abbrev pub length : List A → ℕ
  length [] = 0
  length (x ∷ xs) = suc (length xs)

  -- any(test(x) for x in xs), all(test(x) for x in xs)
  abbrev pub any : (A → Bool) → List A → Bool
  any test [] = false
  any test (x ∷ xs) = test x || any test xs

  abbrev pub all : (A → Bool) → List A → Bool
  all test [] = true
  all test (x ∷ xs) = test x && all test xs

  -- `not xs`
  abbrev pub is_nil : List A → Bool
  is_nil [] = true
  is_nil (x ∷ xs) = false

  pub length-append : (xs ys : List A) → length (xs ++ ys) ≡ length xs + length ys
  length-append [] ys = omega arith
  length-append (x ∷ xs) ys = omega (arith, length-append xs ys)

module _ {ℓ κ} {A : Type ℓ} where
  abbrev pub All : (A → Type κ) → List A → Type κ
  All P [] = Unit
  All P (x ∷ xs) = P x × All P xs

  pub All-append : (P : A → Type κ) (xs ys : List A) → All P xs → All P ys → All P (xs ++ ys)
  All-append P [] ys hx hy = hy
  All-append P (x ∷ xs) ys hx hy = (hx.0, All-append P xs ys hx.1 hy)

  pub All-split : (P : A → Type κ) (xs ys : List A) → All P (xs ++ ys) → All P xs × All P ys
  All-split P [] ys h = (tt, h)
  All-split P (x ∷ xs) ys h = let rest = All-split P xs ys h.1 in ((h.0, rest.0), rest.1)

module _ {ℓ κ} {A : Type ℓ} {B : Type κ} where
  -- [f(x) for x in xs], flattened: a loop that appends several items for each element
  abbrev pub gather : (A → List B) → List A → List B
  gather f [] = []
  gather f (x ∷ xs) = f x ++ gather f xs

module _ {ℓ} {A : Type ℓ} where
  pub append-eq-nil : (xs ys : List A) → ((xs ++ ys) ≡ []) ↔ ((xs ≡ []) × (ys ≡ []))
  append-eq-nil [] ys = (λ e. (refl, e), λ e. e.1)
  append-eq-nil (x ∷ xs) ys = (λ e. cc, λ e. cc (e.0))

module _ {ℓ κ} {A : Type ℓ} {B : Type κ} where
  pub gather-eq-nil : (f : A → List B) (xs : List A) → (gather f xs ≡ []) ↔ All (λ x. f x ≡ []) xs
  gather-eq-nil f [] = (λ e. tt, λ h. refl)
  gather-eq-nil f (x ∷ xs) = (
    λ e. let p = (append-eq-nil (f x) (gather f xs)).0 e in (p.0, (gather-eq-nil f xs).0 p.1),
    λ h. (append-eq-nil (f x) (gather f xs)).1 (h.0, (gather-eq-nil f xs).1 h.1),
  )

module _ {ℓ κ ι} {A : Type ℓ} where
  pub All-map :
      (P : A → Type κ) (Q : A → Type ι)
      → ((x : A) → P x → Q x)
      → (xs : List A) → All P xs
      → All Q xs
  All-map P Q f [] h = tt
  All-map P Q f (x ∷ xs) h = (f x h.0, All-map P Q f xs h.1)

module _ {ℓ κ} {A : Type ℓ} {B : Type κ} where
  -- [f(x) for x in xs if test(x)]
  abbrev pub select : (A → B) → (A → Bool) → List A → List B
  select f test [] = []
  select f test (x ∷ xs) = elim (test x) [
    | true ↦ f x ∷ select f test xs
    | false ↦ select f test xs
  ]

pub is_nil_iff {ℓ} : {A : Type ℓ} (xs : List A) → (is_nil xs ≡ true) ↔ (xs ≡ [])
is_nil_iff [] = (λ e. refl, λ e. refl)
is_nil_iff (x ∷ xs) = (λ e. cc, λ e. cc)

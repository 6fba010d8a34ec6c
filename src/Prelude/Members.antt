-- ===== src/Prelude/Members.antt =====
-- Membership, and the tests `any`, `all` and `member` in its terms.
use mathlib.Core.Path.{◌≡◌, refl, sym, ap, subst}
use mathlib.Core.Bool.{Bool, true, false}
use mathlib.Core.Logic.{◌↔◌, inl, inr}
use mathlib.Core.List.{List, [], ◌∷◌, Memᴰ}
use Prim.Native.String.{String}
use native.Mathlib.Omega.{arith}
use text.Mathlib.Text.{◌==◌}
use text.Mathlib.TextEquality.{eq_iff}
use agent_analysis.Prelude.Tests.{Bool-cases}
use agent_analysis.Prelude.Lists.{any, all, All, select}
use agent_analysis.Prelude.Text.{member}

module _ {ℓ} {A : Type ℓ} where
  pub any→mem :
      (test : A → Bool) (xs : List A) → any test xs ≡ true → (x : A) × Memᴰ x xs × (test x ≡ true)
  any→mem test [] h = cc
  any→mem test (x ∷ xs) h = elim (Bool-cases (test x)) [
    | inl e ↦ (x, Memᴰ.head refl, e)
    | inr e ↦ let (y, m, t) = any→mem test xs (rw e at h) in (y, Memᴰ.tail m, t)
  ]

  pub mem→any :
      (test : A → Bool) (x : A) (xs : List A) → Memᴰ x xs → test x ≡ true → any test xs ≡ true
  mem→any test x [] m h = elim m [ ]
  mem→any test x (y ∷ ys) (Memᴰ.head e) h = ground (arith, ap test e)
  mem→any test x (y ∷ ys) (Memᴰ.tail m) h = ground (arith, mem→any test x ys m h)

  pub all→mem :
      (test : A → Bool) (x : A) (xs : List A) → all test xs ≡ true → Memᴰ x xs → test x ≡ true
  all→mem test x [] h m = elim m [ ]
  all→mem test x (y ∷ ys) h (Memᴰ.head e) = ground (arith, ap test e)
  all→mem test x (y ∷ ys) h (Memᴰ.tail m) = all→mem test x ys (ground arith) m

  pub mem→all :
      (test : A → Bool) (xs : List A) → ((x : A) → Memᴰ x xs → test x ≡ true) → all test xs ≡ true
  mem→all test [] h = refl
  mem→all test (x ∷ xs) h = rw (h x (Memᴰ.head refl)) (mem→all test xs (λ y m. h y (Memᴰ.tail m)))

module _ {ℓ κ} {A : Type ℓ} where
  pub All→mem : (P : A → Type κ) (x : A) (xs : List A) → All P xs → Memᴰ x xs → P x
  All→mem P x [] h m = elim m [ ]
  All→mem P x (y ∷ ys) h (Memᴰ.head e) = subst P (sym e) h.0
  All→mem P x (y ∷ ys) h (Memᴰ.tail m) = All→mem P x ys h.1 m

  pub mem→All : (P : A → Type κ) (xs : List A) → ((x : A) → Memᴰ x xs → P x) → All P xs
  mem→All P [] h = tt
  mem→All P (x ∷ xs) h = (h x (Memᴰ.head refl), mem→All P xs (λ y m. h y (Memᴰ.tail m)))

pub member→mem : (s : String) (xs : List String) → member s xs ≡ true → Memᴰ s xs
member→mem s xs h =
    let (x, m, e) = any→mem (λ (y : String). s == y) xs h in
    subst (λ y. Memᴰ y xs) (sym ((eq_iff s x).0 e)) m

pub mem→member : (s : String) (xs : List String) → Memᴰ s xs → member s xs ≡ true
mem→member s [] m = elim m [ ]
mem→member s (x ∷ xs) (Memᴰ.head e) = ground (arith, eq_iff s x)
mem→member s (x ∷ xs) (Memᴰ.tail m) = ground (arith, mem→member s xs m)

module _ {ℓ κ} {A : Type ℓ} {B : Type κ} (f : A → B) (test : A → Bool) where
  -- Where an element of a comprehension comes from.
  abbrev pub IsSelected : List A → B → Type (ℓ ⊔ κ)
  IsSelected xs y = (x : A) × Memᴰ x xs × (test x ≡ true) × (y ≡ f x)

  select-cons-true :
      (x : A) (xs : List A) → test x ≡ true → select f test (x ∷ xs) ≡ f x ∷ select f test xs
  select-cons-true x xs e = rw (e, select)

  select-cons-false :
      (x : A) (xs : List A) → test x ≡ false → select f test (x ∷ xs) ≡ select f test xs
  select-cons-false x xs e = rw (e, select)

  IsSelected-cons : (x : A) (xs : List A) (y : B) → IsSelected xs y → IsSelected (x ∷ xs) y
  IsSelected-cons x xs y (z, m, e, q) = (z, Memᴰ.tail m, e, q)

  pub select→mem : (xs : List A) (y : B) → Memᴰ y (select f test xs) → IsSelected xs y
  select→mem [] y m = elim m [ ]
  select→mem (x ∷ xs) y m = elim (Bool-cases (test x)) [
    | inl e ↦ here e (subst (Memᴰ y) (select-cons-true x xs e) m) (select→mem xs y)
    | inr e ↦ IsSelected-cons x xs y (select→mem xs y (subst (Memᴰ y) (select-cons-false x xs e) m))
  ]
    where
      here :
          test x ≡ true
          → Memᴰ y (f x ∷ select f test xs)
          → (Memᴰ y (select f test xs) → IsSelected xs y)
          → IsSelected (x ∷ xs) y
      here e (Memᴰ.head q) rest = (x, Memᴰ.head refl, e, q)
      here e (Memᴰ.tail k) rest = IsSelected-cons x xs y (rest k)

  pub mem→select : (xs : List A) (x : A) → Memᴰ x xs → test x ≡ true → Memᴰ (f x) (select f test xs)
  mem→select [] x m e = elim m [ ]
  mem→select (z ∷ zs) x (Memᴰ.head q) e =
      subst (Memᴰ (f x)) (sym (select-cons-true z zs (subst (λ w. test w ≡ true) q e)))
        (Memᴰ.head (ap f q))
  mem→select (z ∷ zs) x (Memᴰ.tail m) e = elim (Bool-cases (test z)) [
    | inl t ↦ subst (Memᴰ (f x)) (sym (select-cons-true z zs t)) (Memᴰ.tail (mem→select zs x m e))
    | inr t ↦ subst (Memᴰ (f x)) (sym (select-cons-false z zs t)) (mem→select zs x m e)
  ]

  pub select-eq-nil :
      (xs : List A) → (select f test xs ≡ []) ↔ ((x : A) → Memᴰ x xs → test x ≡ false)
  select-eq-nil xs = (
    λ h x m. elim (Bool-cases (test x)) [
      | inl e ↦ absurd (nothing (subst (Memᴰ (f x)) h (mem→select xs x m e)))
      | inr e ↦ e
    ],
    λ h. empty (select f test xs) (λ y m. let (x, i, e, q) = select→mem xs y m in cc (h x i)),
  )
    where
      nothing : {y : B} → Memᴰ y [] → ⊥
      nothing m = elim m [ ]

      empty : (ys : List B) → ((y : B) → Memᴰ y ys → ⊥) → ys ≡ []
      empty [] none_in = refl
      empty (y ∷ ys) none_in = absurd (none_in y (Memᴰ.head refl))

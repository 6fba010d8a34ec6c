-- ===== src/Machine/Order.antt =====
-- How `next_state` walks through the states.
use agent_analysis.Prelude.{
  ◌⊎◌, inl, inr, ◌<◌, eq_iff, Option-cases, ℕ, zero, suc, String, Bool, true, not, ◌&&◌, ◌≡◌, refl,
  sym, ◌∙◌, ap, ◌↔◌, List, [], ◌∷◌, none, some, member, length, arith, some_injective, subst,
}
use agent_analysis.Schemas.Constants.{RunType}
use agent_analysis.Machine.{terminal_state, order, get_elem?, after, next_state}

-- The states that a run comes to in `n` steps of `next_state` from INTAKE.
pub data Reaches (t : RunType) : String → ℕ → Type 0 where
  start : Reaches t "INTAKE" 0
  step :
      {s s' : String} {n : ℕ}
      → Reaches t s n
      → next_state t s ≡ some (some s')
      → Reaches t s' (suc n)

abbrev distinct : List String → Bool
distinct [] = true
distinct (x ∷ xs) = not (member x xs) && distinct xs

get_elem→member :
    (xs : List String) (n : ℕ) (s : String) → get_elem? xs n ≡ some s → member s xs ≡ true
get_elem→member [] n s e = cc
get_elem→member (x ∷ xs) zero s e = ground (arith, eq_iff s x)
get_elem→member (x ∷ xs) (suc n) s e = ground (arith, get_elem→member xs n s e)

after-get_elem :
    (xs : List String) (n : ℕ) (s : String)
    → distinct xs ≡ true
    → get_elem? xs n ≡ some s
    → after s xs ≡ some (get_elem? xs (suc n))
unfolding after
after-get_elem [] n s d e = cc
after-get_elem (x ∷ xs) zero s d e = ground (arith, eq_iff x s)
after-get_elem (x ∷ xs) (suc n) s d e =
    let there = get_elem→member xs n s e in
    let same = eq_iff x s in ground (arith, after-get_elem xs n s)

order-distinct : (t : RunType) → distinct (order t) ≡ true
unfolding order
order-distinct RunType.implementation = refl
order-distinct RunType.read_only_analysis = refl

order-start : (t : RunType) → get_elem? (order t) 0 ≡ some "INTAKE"
unfolding order
order-start RunType.implementation = refl
order-start RunType.read_only_analysis = refl

next_state-get_elem :
    (t : RunType) (n : ℕ) (s : String)
    → get_elem? (order t) n ≡ some s
    → next_state t s ≡ some (get_elem? (order t) (suc n))
unfolding next_state
next_state-get_elem t n s e = after-get_elem (order t) n s (order-distinct t) e

get_elem-suc :
    (xs : List String) (n : ℕ) (s' : String)
    → get_elem? xs (suc n) ≡ some s'
    → (s : String) × (get_elem? xs n ≡ some s)
get_elem-suc [] n s' e = cc
get_elem-suc (x ∷ xs) zero s' e = (x, refl)
get_elem-suc (x ∷ xs) (suc n) s' e = get_elem-suc xs n s' e

reaches→ : (t : RunType) (s : String) (n : ℕ) → Reaches t s n → get_elem? (order t) n ≡ some s
reaches→ t _ _ Reaches.start = order-start t
reaches→ t s' (suc n) (Reaches.step {s} r e) =
    some_injective (sym (next_state-get_elem t n s (reaches→ t s n r)) ∙ e)

reaches← : (t : RunType) (n : ℕ) (s : String) → get_elem? (order t) n ≡ some s → Reaches t s n
reaches← t zero s e =
    subst (λ x. Reaches t x 0) (some_injective (sym (order-start t) ∙ e)) Reaches.start
reaches← t (suc n) s' e =
    let (s, f) = get_elem-suc (order t) n s' e in
    Reaches.step (reaches← t n s f) (next_state-get_elem t n s f ∙ ap some e)

-- A run comes to a state in n steps from INTAKE exactly when it is the n-th state of the order of
-- its run type, so every run visits every state of its order, each once.
pub reaches_iff :
    (t : RunType) (s : String) (n : ℕ) → Reaches t s n ↔ (get_elem? (order t) n ≡ some s)
reaches_iff t s n = (reaches→ t s n, reaches← t n s)

get_elem-bound : (xs : List String) (n : ℕ) (s : String) → get_elem? xs n ≡ some s → n < length xs
get_elem-bound [] n s e = cc
get_elem-bound (x ∷ xs) zero s e = ground arith
get_elem-bound (x ∷ xs) (suc n) s e = ground (arith, get_elem-bound xs n s e)

abbrev last : String → List String → String
last d [] = d
last d (x ∷ xs) = last x xs

get_elem-last :
    (d : String) (xs : List String) (n : ℕ) (s : String)
    → get_elem? xs n ≡ some s
    → get_elem? xs (suc n) ≡ none
    → last d xs ≡ s
get_elem-last d [] n s e f = cc
get_elem-last d (x ∷ []) zero s e f = some_injective e
get_elem-last d (x ∷ y ∷ xs) zero s e f = cc
get_elem-last d (x ∷ xs) (suc n) s e f = get_elem-last x xs n s e f

order-last : (t : RunType) → last "" (order t) ≡ terminal_state
unfolding order
order-last RunType.implementation = refl
order-last RunType.read_only_analysis = refl

-- From a state that a run reaches, `next_state` never raises: it stops the run at STOP_OR_LOOP or
-- goes on to a next state that is reached, and the number of steps stays below the number of states.
pub reaches_stops :
    (t : RunType) (s : String) (n : ℕ)
    → Reaches t s n
    → (n < length (order t))
      × (((s ≡ terminal_state) × (next_state t s ≡ some none))
          ⊎ ((s' : String) × (next_state t s ≡ some (some s')) × Reaches t s' (suc n)))
reaches_stops t s n r =
    let e = reaches→ t s n r in
    let next = next_state-get_elem t n s e in
    (
      get_elem-bound (order t) n s e,
      elim (Option-cases (get_elem? (order t) (suc n))) [
        | inl f ↦ inl (sym (get_elem-last "" (order t) n s e f) ∙ order-last t, next ∙ ap some f)
        | inr (s', f) ↦ inr (s', next ∙ ap some f, Reaches.step r (next ∙ ap some f))
      ],
    )

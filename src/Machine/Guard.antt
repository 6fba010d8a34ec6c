-- ===== src/Machine/Guard.antt =====
-- What the transition guard admits.
use agent_analysis.Prelude.{
  String, Bool, true, false, not, Bool-cases, ◌≡◌, refl, sym, ap, ◌↔◌, iff_trans, List, [], ◌∷◌,
  none, some, if◌then◌else◌, map, member, any, all, basename, arith, Memᴰ, mem→member, member→mem,
  subst, any→mem, mem→any, all→mem, mem→all, select-eq-nil, inl, inr,
}
use agent_analysis.Schemas.Constants.{RunType}
use agent_analysis.Schemas.GateResult.{passed, passed-of}
use agent_analysis.Machine.{
  order, get, alternative_required, required_for, alternatives_reasons, required_reasons,
  missing_reason, transition_guard,
}

-- The sets of artifacts of which one must be there to leave a state.
abbrev pub options : RunType → String → List (List String)
options t s = elim (get s alternative_required) [
  | some alternatives ↦ alternatives
  | none ↦ required_for t s ∷ []
]

-- An artifact of that name lies under one of the paths.
abbrev pub IsPresent : List String → String → Type 0
IsPresent paths name = (path : String) × Memᴰ path paths × (basename path ≡ name)

pub record CanLeave (t : RunType) (s : String) (paths : List String) : Type 0 where
  pub known : Memᴰ s (order t)
  pub supplied :
      (option : List String) × Memᴰ option (options t s)
      × ((name : String) → Memᴰ name option → IsPresent paths name)

mem-basename :
    (paths : List String) {p : String} → Memᴰ p paths → Memᴰ (basename p) (map basename paths)
mem-basename [] m = elim m [ ]
mem-basename (q ∷ qs) (Memᴰ.head e) = Memᴰ.head (ap basename e)
mem-basename (q ∷ qs) (Memᴰ.tail m) = Memᴰ.tail (mem-basename qs m)

mem→present :
    (name : String) (paths : List String) → Memᴰ name (map basename paths) → IsPresent paths name
mem→present name [] m = elim m [ ]
mem→present name (x ∷ xs) (Memᴰ.head e) = (x, Memᴰ.head refl, sym e)
mem→present name (x ∷ xs) (Memᴰ.tail m) =
    let (p, n, e) = mem→present name xs m in (p, Memᴰ.tail n, e)

IsPresent-iff :
    (paths : List String) (name : String)
    → (member name (map basename paths) ≡ true) ↔ IsPresent paths name
IsPresent-iff paths name = (
  λ h. mem→present name paths (member→mem name (map basename paths) h),
  λ (p, m, e).
      mem→member name (map basename paths)
        (subst (λ n. Memᴰ n (map basename paths)) e (mem-basename paths m)),
)

-- All of one set of artifacts are there.
abbrev IsSupplied : List String → List String → Type 0
IsSupplied paths option = (name : String) → Memᴰ name option → IsPresent paths name

abbrev all_present : List String → List String → Bool
all_present paths option = all (λ name. member name (map basename paths)) option

IsSupplied-iff :
    (paths option : List String)
    → (all (λ name. member name (map basename paths)) option ≡ true) ↔ IsSupplied paths option
IsSupplied-iff paths option = (
  λ h name m.
      (IsPresent-iff paths name).0 (all→mem (λ n. member n (map basename paths)) name option h m),
  λ h.
      mem→all (λ n. member n (map basename paths)) option
        (λ name m. (IsPresent-iff paths name).1 (h name m)),
)

alternatives_iff :
    (s : String) (paths : List String) (alternatives : List (List String))
    → (alternatives_reasons s (map basename paths) alternatives ≡ [])
      ↔ ((option : List String) × Memᴰ option alternatives × IsSupplied paths option)
unfolding alternatives_reasons
alternatives_iff s paths alternatives = elim (Bool-cases (any (all_present paths) alternatives)) [
  | inl t ↦
      let (option, m, e) = any→mem (all_present paths) alternatives t in
      (λ h. (option, m, (IsSupplied-iff paths option).0 e), λ h. ground arith)
  | inr f ↦ (
    λ h. ground arith,
    λ (option, m, supplied).
        let found =
          mem→any (all_present paths) option alternatives m
            ((IsSupplied-iff paths option).1 supplied) in
        ground arith,
  )
]

required_iff :
    (t : RunType) (s : String) (paths : List String)
    → (required_reasons t s (map basename paths) ≡ [])
      ↔ ((option : List String) × Memᴰ option (required_for t s ∷ []) × IsSupplied paths option)
unfolding required_reasons
required_iff t s paths =
    let empty =
      select-eq-nil (missing_reason s) (λ name. not (member name (map basename paths)))
        (required_for t s) in
    (
      λ h. (
        required_for t s,
        Memᴰ.head refl,
        λ name m. (IsPresent-iff paths name).0 (ground (arith, empty.0 h name m)),
      ),
      λ (option, m, supplied). empty.1 (λ name n.
          ground (arith, (IsPresent-iff paths name).1 (supplied name (only option m name n)))),
    )
  where
    only :
        (option : List String)
        → Memᴰ option (required_for t s ∷ [])
        → (name : String) → Memᴰ name (required_for t s)
        → Memᴰ name option
    only option (Memᴰ.head e) name n = subst (Memᴰ name) (sym e) n
    only option (Memᴰ.tail m) name n = elim m [ ]

-- The reasons of the guard, in a known state.
known_iff :
    (t : RunType) (s : String) (paths : List String)
    → (elim (get s alternative_required) [
      | some alternatives ↦ alternatives_reasons s (map basename paths) alternatives
      | none ↦ required_reasons t s (map basename paths)
    ]
        ≡ [])
      ↔ ((option : List String) × Memᴰ option (options t s) × IsSupplied paths option)
known_iff t s paths =
    elim (get s alternative_required)
      as (λ o.
        (elim o [
          | some alternatives ↦ alternatives_reasons s (map basename paths) alternatives
          | none ↦ required_reasons t s (map basename paths)
        ]
          ≡ [])
        ↔ ((option : List String) × Memᴰ option
              (elim o [ some alternatives ↦ alternatives | none ↦ required_for t s ∷ [] ])
            × IsSupplied paths option)) [
              | some alternatives ↦ alternatives_iff s paths alternatives
              | none ↦ required_iff t s paths
            ]

guarded_iff :
    (b : Bool) (r : String) (rs : List String)
    → ((if not b then r ∷ [] else rs) ≡ []) ↔ ((b ≡ true) × (rs ≡ []))
guarded_iff true r rs = (λ h. (refl, h), λ h. h.1)
guarded_iff false r rs = (λ h. cc, λ h. cc)

-- The guard passes exactly when the state is one of the run type's order and, for one of the sets of
-- artifacts that the state may be left with, each name of the set is the last part of a path that
-- is present.
pub transition_guard-passed_iff :
    (t : RunType) (s : String) (paths : List String)
    → (passed (transition_guard t s paths) ≡ true) ↔ CanLeave t s paths
unfolding transition_guard
transition_guard-passed_iff t s paths =
    let tested = guarded_iff (member s (order t)) _ _ in
    let known = known_iff t s paths in
    iff_trans (passed-of _ _) (
      λ h. record {
        known = member→mem s (order t) (tested.0 h).0;
        supplied = known.0 (tested.0 h).1;
      },
      λ c. tested.1 (mem→member s (order t) c.known, known.1 c.supplied),
    )

-- ===== src/Schemas/Json.antt =====
-- JSON values, as Python holds them in a `dict` such as `metadata`. A float is its decimal text.
use agent_analysis.Prelude.{
  String, Bool, true, false, not, ◌==◌, ◌&&◌, Option, none, some, if◌then◌else◌, ℤ, is_zero, List,
  [], ◌∷◌, ◌≡◌, refl, eq_iff, arith,
}

mutual
  pub data Value : Type 0 where
    null : Value
    bool : Bool → Value
    int : ℤ → Value
    float : String → Value
    text : String → Value
    array : Items → Value
    object : Fields → Value

  pub data Items : Type 0 where
    nil : Items
    cons : Value → Items → Items

  pub data Fields : Type 0 where
    end : Fields
    field : String → Value → Fields → Fields

-- d.get(key)
unfoldable pub get_field : String → Fields → Option Value
get_field key end = none
get_field key (field k v fs) = if k == key then some v else get_field key fs

-- bool(v); the texts of a zero float are those that `repr` writes.
unfoldable pub truthy : Value → Bool
truthy null = false
truthy (bool b) = b
truthy (int n) = not (is_zero n)
truthy (float f) = not (f == "0.0") && not (f == "-0.0")
truthy (text s) = not (s == "")
truthy (array nil) = false
truthy (array (cons v vs)) = true
truthy (object end) = false
truthy (object (field k v fs)) = true

-- bool(d.get(key))
unfoldable pub flag : String → Fields → Bool
unfolding get_field truthy
flag key fs = elim (get_field key fs) [ none ↦ false | some v ↦ truthy v ]

-- [texts] as a JSON array
unfoldable pub texts : List String → Items
texts [] = nil
texts (s ∷ ss) = cons (text s) (texts ss)

-- d.get(key, default)
unfoldable pub get_or : String → Value → Fields → Value
unfolding get_field
get_or key default fs = elim (get_field key fs) [ none ↦ default | some v ↦ v ]

-- d[key] = v
unfoldable pub set_field : String → Value → Fields → Fields
set_field key v end = field key v end
set_field key v (field k w fs) = if k == key then field k v fs else field k w (set_field key v fs)

-- d[key] = v, then d.get(k)
pub get_field-set_field :
    (key : String) (v : Value) (fs : Fields) (k : String)
    → get_field k (set_field key v fs) ≡ (if key == k then some v else get_field k fs)
unfolding get_field set_field
get_field-set_field key v end k = refl
get_field-set_field key v (field j w fs) k =
    let rest = get_field-set_field key v fs k in
    let same = eq_iff j key in let found = eq_iff j k in let asked = eq_iff key k in ground arith

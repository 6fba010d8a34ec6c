-- ===== src/Schemas/Reading.antt =====
-- How the handlers read a JSON value that a caller supplies. `none` is the exception that Python, or
-- the validation of a field, raises on a value of another type.
use agent_analysis.Prelude.{
  String, Bool, true, false, ◌==◌, ◌||◌, not, List, [], ◌∷◌, Option, none, some, ◌>>=◌,
  if◌then◌else◌, is_zero, characters, show_int,
}
use agent_analysis.Schemas.Json.{
  Value, Items, Fields, null, bool, int, float, text, array, object, nil, cons, end, field, truthy,
  texts, get_or,
}

-- What `.get` needs: a dict.
unfoldable pub as_object : Value → Option Fields
as_object (object fs) = some fs
as_object _ = none

-- A field of type `str`.
unfoldable pub as_text : Value → Option String
as_text (text s) = some s
as_text _ = none

-- The keys of a dict.
unfoldable pub keys : Fields → List String
keys end = []
keys (field k v fs) = k ∷ keys fs

-- for x in v, list(v)
unfoldable pub iterate : Value → Option Items
unfolding keys
iterate (array vs) = some vs
iterate (object fs) = some (texts (keys fs))
iterate (text s) = some (texts (characters s))
iterate _ = none

-- The elements, all of which are used as texts.
unfoldable pub texts_of : Items → Option (List String)
unfolding as_text
texts_of nil = some []
texts_of (cons v vs) = do s ← as_text v; ss ← texts_of vs; some (s ∷ ss)

-- A field of type `list[str]` that is given `v or []`.
unfoldable pub listed : Value → Option (List String)
unfolding texts_of
listed v = if not (truthy v) then some [] else elim v [ array vs ↦ texts_of vs | _ ↦ none ]

-- v == 0
unfoldable pub equals_zero : Value → Bool
equals_zero (bool b) = not b
equals_zero (int n) = is_zero n
equals_zero (float f) = f == "0.0" || f == "-0.0"
equals_zero _ = false

-- `v not in (0, None)`
unfoldable pub is_failure : Value → Bool
unfolding equals_zero
is_failure null = false
is_failure v = not (equals_zero v)

-- `x.get("exit_code")` of an element of the logs
unfoldable pub exit_code_of : Value → Option Value
unfolding as_object
exit_code_of v = do fs ← as_object v; some (get_or "exit_code" null fs)

-- all(o.get("exit_code") == 0 for o in logs): the first other code ends the test.
unfoldable pub all_zero : Items → Option Bool
unfolding exit_code_of equals_zero
all_zero nil = some true
all_zero (cons v vs) =
    let rest = all_zero vs in
    do code ← exit_code_of v; if equals_zero code then rest else some false

-- any(o.get("exit_code") not in (0, None) for o in logs): the first failure ends the test.
unfoldable pub any_failed : Items → Option Bool
unfolding exit_code_of is_failure
any_failed nil = some false
any_failed (cons v vs) =
    let rest = any_failed vs in
    do code ← exit_code_of v; if is_failure code then some true else rest

-- [o for o in logs if o.get("exit_code") not in (0, None)]
unfoldable pub failed_logs : Items → Option Items
unfolding exit_code_of is_failure
failed_logs nil = some nil
failed_logs (cons v vs) = do
  code ← exit_code_of v
  rest ← failed_logs vs
  some (if is_failure code then cons v rest else rest)

-- str(v); of a list or a dict it is `repr`, which is given.
unfoldable pub str_of : (Value → String) → Value → String
str_of repr null = "None"
str_of repr (bool b) = if b then "True" else "False"
str_of repr (int n) = show_int n
str_of repr (float f) = f
str_of repr (text s) = s
str_of repr v = repr v

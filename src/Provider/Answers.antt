-- ===== src/Provider/Answers.antt =====
-- A specification of what `call_rpc_request` of src/py_near/providers.py returns of a row of
-- answers: the first that holds no error, or else the last value.
use py_near.Base.{Bool, true, false, List, [], ◌∷◌, ok, err, ◌≡◌, All}
use py_near.Json.{Json}
use py_near.Python.{contains}
use py_near.Errors.Exception.{Raises}

-- A value in which `"error" in result` is false.
abbrev pub is_good : Raises Json → Bool
is_good (err e) = false
is_good (ok v) = elim (contains "error" v) [ ok false ↦ true | ok true ↦ false | err e ↦ false ]

abbrev pub value_or : Raises Json → Json → Json
value_or (err e) res = res
value_or (ok v) res = v

-- The first good answer, or the last value behind `res`.
abbrev pub chosen : List (Raises Json) → Json → Json
chosen [] res = res
chosen (a ∷ rest) res = elim (is_good a) [
  | true ↦ value_or a res
  | false ↦ chosen rest (value_or a res)
]

abbrev pub NoneGood : List (Raises Json) → Type 0
NoneGood = All (λ a. is_good a ≡ false)

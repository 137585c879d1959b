-- ===== src/Python.antt =====
-- Python's operators and methods on the values of `json.loads`, with what they raise.
pub mod Decimals
use text.Mathlib.Text.{find?}
use py_near.Base.{
  ℕ, ◌+◌, ◌*◌, ◌-◌, String, Bool, true, false, ◌&&◌, none, some, List, [], ◌∷◌, leb, any, str_eq,
  ok, err, if◌then◌else◌, or_raise,
}
use Prim.Native.Char.{code}
use py_near.Json.{Json, bool, num, str, arr, obj, Fields, end, field, lookup, has_key, to_list}
use py_near.Errors.Exception.{
  Raises, key_error, type_error, attribute_error, index_error, value_error,
}

abbrev is_str : String → Json → Bool
is_str key (str s) = str_eq s key
is_str key _ = false

-- `key in v`: a key of a dict, an element of a list, a part of a text.
unfoldable pub contains : String → Json → Raises Bool
unfolding has_key
contains key (obj fs) = ok (has_key key fs)
contains key (arr vs) = ok (any (is_str key) (to_list vs))
contains key (str s) = ok (elim (find? s key) [ none ↦ false | some _ ↦ true ])
contains key _ = err type_error

-- `v[key]`
unfoldable pub get_item : Json → String → Raises Json
get_item (obj fs) key = or_raise (lookup key fs) (key_error key)
get_item _ key = err type_error

-- `v.get(key, default)`
unfoldable pub get_or : Json → String → Json → Raises Json
get_or (obj fs) key default = ok (elim (lookup key fs) [ none ↦ default | some v ↦ v ])
get_or _ key default = err attribute_error

-- `list(v.items())[0]`
unfoldable pub first_item : Json → Raises (String × Json)
first_item (obj end) = err index_error
first_item (obj (field k v fs)) = ok (k, v)
first_item _ = err attribute_error

-- The fields of a value passed as `**v`.
unfoldable pub keywords : Json → Raises Fields
keywords (obj fs) = ok fs
keywords _ = err type_error

-- A required keyword argument.
unfoldable pub argument : Fields → String → Raises Json
argument fs key = or_raise (lookup key fs) type_error

abbrev chars : String → List Json
chars String.[] = []
chars (String.◌∷◌ c s) = str (String.◌∷◌ c String.[]) ∷ chars s

abbrev keys : Fields → List Json
keys end = []
keys (field k v fs) = str k ∷ keys fs

-- The values that a `for` loop over `v` meets.
unfoldable pub iterate : Json → Raises (List Json)
iterate (arr vs) = ok (to_list vs)
iterate (obj fs) = ok (keys fs)
iterate (str s) = ok (chars s)
iterate _ = err type_error

-- The value of a text of decimal digits, read onto `acc`.
unfoldable pub digits_from : ℕ → String → Raises ℕ
digits_from acc String.[] = ok acc
digits_from acc (String.◌∷◌ c s) =
    let rest = digits_from (acc * 10 + (code c - b'0')) s in
    if leb b'0' (code c) && leb (code c) b'9' then rest else err value_error

-- `int(v)`: texts with a sign, spaces or underscores are left out, and are a `ValueError` here.
unfoldable pub int : Json → Raises ℕ
unfolding digits_from
int (num n) = ok n
int (bool b) = ok (if b then 1 else 0)
int (str String.[]) = err value_error
int (str (String.◌∷◌ c s)) = digits_from 0 (String.◌∷◌ c s)
int _ = err type_error

-- A value that is used as a whole number; `True` is 1.
unfoldable pub number_of : Json → Raises ℕ
number_of (num n) = ok n
number_of (bool b) = ok (if b then 1 else 0)
number_of _ = err type_error

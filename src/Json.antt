-- ===== src/Json.antt =====
-- The values that `json.loads` returns: dicts keep their fields in order, with distinct keys.
-- Numbers are the non-negative integers, which are all that the node's interface has: balances and
-- amounts travel as text.
use py_near.Base.{
  ℕ, String, Bool, true, false, Option, none, some, List, [], ◌∷◌, ◌==◌, str_eq, if◌then◌else◌,
}

mutual
  pub data Json : Type 0 where
    null : Json
    bool : Bool → Json
    num : ℕ → Json
    str : String → Json
    arr : Items → Json
    obj : Fields → Json

  pub data Items : Type 0 where
    nil : Items
    cons : Json → Items → Items

  pub data Fields : Type 0 where
    end : Fields
    field : String → Json → Fields → Fields

-- `d.get(key)` on the fields of a dict.
unfoldable pub lookup : String → Fields → Option Json
lookup key end = none
lookup key (field k v fs) = if str_eq k key then some v else lookup key fs

-- `key in d` on the fields of a dict.
unfoldable pub has_key : String → Fields → Bool
unfolding lookup
has_key key fs = elim (lookup key fs) [ none ↦ false | some _ ↦ true ]

-- `del d[key]`, `d.pop(key, None)`
unfoldable pub without_key : String → Fields → Fields
without_key key end = end
without_key key (field k v fs) = if str_eq k key then fs else field k v (without_key key fs)

-- Python's `bool(v)`.
unfoldable pub truthy : Json → Bool
truthy null = false
truthy (bool b) = b
truthy (num n) = if n == 0 then false else true
truthy (str s) = if str_eq s "" then false else true
truthy (arr nil) = false
truthy (arr (cons v vs)) = true
truthy (obj end) = false
truthy (obj (field k v fs)) = true

abbrev pub to_list : Items → List Json
to_list nil = []
to_list (cons v vs) = v ∷ to_list vs

abbrev pub of_list : List Json → Items
of_list [] = nil
of_list (v ∷ vs) = cons v (of_list vs)

-- A dict with one field.
pattern abbrev pub single : String → Json → Json
single k v = obj (field k v end)

-- ===== src/Errors/Kinds/Parsing.antt =====
-- The default dict of `TxExecutionError.__init__` under `parse_error`
-- (src/py_near/exceptions/exceptions.py).
use py_near.Base.{
  String, false, Option, none, some, ok, ◌≡◌, refl, sym, ap, str_eq, str_eq_iff, ◌∙◌, inl, inr,
  Bool-cases, if◌then◌else◌,
}
use py_near.Json.{Json, obj, Fields, field, end, lookup, without_key}
use py_near.Python.{keywords}
use py_near.Errors.Kinds.{
  KindError, lack_balance_for_state, parse_error, construct, find_kind, signature, put, update,
}

lookup-put : (key : String) (v : Json) (fs : Fields) → lookup key (put key v fs) ≡ some v
unfolding put lookup
lookup-put key v end = rw ((str_eq_iff key key).1 refl) refl
lookup-put key v (field k w fs) = elim (Bool-cases (str_eq k key)) [
  | inl same ↦ rw (same, put) (rw (same, lookup) refl)
  | inr other ↦ rw (other, put) (rw (other, lookup) (lookup-put key v fs))
]

lookup-put_other :
    (key other : String) (v : Json) (fs : Fields)
    → str_eq key other ≡ false
    → lookup other (put key v fs) ≡ lookup other fs
unfolding put lookup
lookup-put_other key other v end h = rw h refl
lookup-put_other key other v (field k w fs) h = elim (Bool-cases (str_eq k key)) [
  | inl same ↦
      let f : str_eq k other ≡ false = rw ((str_eq_iff k key).0 same) h in
      rw (same, put) (rw (f, lookup) refl)
  | inr differs ↦
      rw (differs, put)
        (ap (λ o. if str_eq k other then some w else o) (lookup-put_other key other v fs h))
]

-- The first of the fields has another name, and so have the others.
unnamed :
    (name k : String) (v : Json) (fs : Fields)
    → lookup name (field k v fs) ≡ none
    → (str_eq k name ≡ false) × (lookup name fs ≡ none)
unfolding lookup
unnamed name k v fs h = elim (Bool-cases (str_eq k name)) [
  | inl same ↦ let found : some v ≡ none = (sym (rw (same, lookup) refl) ∙ h) in cc
  | inr other ↦ (other, sym (rw (other, lookup) refl) ∙ h)
]

-- Names that are not among the new fields keep what they have.
lookup-update_other :
    (name : String) (d fs : Fields)
    → lookup name fs ≡ none
    → lookup name (update d fs) ≡ lookup name d
unfolding update
lookup-update_other name d end h = refl
lookup-update_other name d (field k v fs) h =
    let (other, rest) = unnamed name k v fs h in
    lookup-update_other name (put k v d) fs rest ∙ lookup-put_other k name v d other

lookup-without_key :
    (key name : String) (fs : Fields)
    → lookup name fs ≡ none
    → lookup name (without_key key fs) ≡ none
unfolding without_key lookup
lookup-without_key key name end h = refl
lookup-without_key key name (field k v fs) h =
    let (other, rest) = unnamed name k v fs h in
    elim (Bool-cases (str_eq k key)) [
      | inl same ↦ rw (same, without_key) rest
      | inr differs ↦
          rw (differs, without_key) (rw (other, lookup) (lookup-without_key key name fs rest))
    ]

module _ (loads : String → Option Json) where
  abbrev lack : Fields → Fields → KindError
  lack args default = record {
    class = lack_balance_for_state;
    attributes = update default (without_key "error_json" args);
  }

  construct-lack :
      (args default : Fields)
      → lookup "data" args ≡ none
      → construct loads lack_balance_for_state args default
        ≡ (ok (lack args default), (lack args default).attributes)
  unfolding construct signature
  construct-lack args default h = rw (h, construct)

  parse_error-lack :
      (args default : Fields)
      → parse_error loads "LackBalanceForState" (obj args) default
        ≡ construct loads lack_balance_for_state args default
  unfolding parse_error find_kind keywords str_eq
  parse_error-lack args default = refl

  -- An argument among others of other names.
  lack-argument :
      (name : String) (v : Json) (rest default : Fields)
      → str_eq name "error_json" ≡ false
      → lookup name rest ≡ none
      → lookup name (lack (field name v rest) default).attributes ≡ some v
  unfolding without_key update
  lack-argument name v rest default named once =
      rw (named, without_key)
        (lookup-update_other name (put name v default) (without_key "error_json" rest)
            (lookup-without_key "error_json" name rest once)
          ∙ lookup-put name v default)

  -- The attributes of one `LackBalanceForState` hold its arguments, and stay in the default dict: the
  -- next one that is made with no arguments of its own has them all, and so the value of each
  -- argument that the first one was given.
  pub parse_error_remembers :
      (name : String) (v : Json) (rest default : Fields)
      → str_eq name "error_json" ≡ false
      → lookup name rest ≡ none
      → lookup "data" (field name v rest) ≡ none
      → (e : KindError) × (parse_error loads "LackBalanceForState" (obj (field name v rest)) default
          ≡ (ok e, e.attributes))
        × (parse_error loads "LackBalanceForState" (obj end) e.attributes ≡ (ok e, e.attributes))
        × (lookup name e.attributes ≡ some v)
  unfolding update without_key lookup
  parse_error_remembers name v rest default named once h =
      let args = field name v rest in
      let e = lack args default in
      (
        e,
        parse_error-lack args default ∙ construct-lack args default h,
        parse_error-lack end e.attributes ∙ construct-lack end e.attributes refl,
        lack-argument name v rest default named once,
      )

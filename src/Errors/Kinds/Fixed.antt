-- ===== src/Errors/Kinds/Fixed.antt =====
-- The constructors of src/py_near/exceptions/exceptions.py with fixed parameters.
use py_near.Base.{
  String, Bool, true, false, Option, none, some, List, [], ◌∷◌, Memᴰ, ok, err, ◌>>=◌, or_raise, ◌≡◌,
  refl, ◌⊎◌, inl, inr, Option-cases, if◌then◌else◌,
}
use py_near.Json.{Json, Fields, end, field, lookup}
use py_near.Errors.Exception.{Raises, type_error}
use py_near.Errors.Kinds.{KindClass, KindError, exactly, signature, fits, assign, construct}

-- The attributes are those of the parameters, in their order, each with the argument's value.
abbrev pub Assigned : List (String × String) → Fields → Fields → Type 0
Assigned [] args end = Unit
Assigned [] args (field k v fs) = ⊥
Assigned (p ∷ ps) args end = ⊥
Assigned ((parameter, attribute) ∷ ps) args (field k v fs) =
    (k ≡ attribute) × (lookup parameter args ≡ some v) × Assigned ps args fs

-- A parameter has no argument.
abbrev pub Missing : List (String × String) → Fields → Type 0
Missing ps args = (p : String × String) × Memᴰ p ps × (lookup p.0 args ≡ none)

abbrev AssignedOrMissing : List (String × String) → Fields → Raises Fields → Type 0
AssignedOrMissing ps args r =
    ((fs : Fields) × (r ≡ ok fs) × Assigned ps args fs) ⊎ ((r ≡ err type_error) × Missing ps args)

assign-cases :
    (ps : List (String × String)) (args : Fields) → AssignedOrMissing ps args (assign ps args)
unfolding assign
assign-cases [] args = inl (end, refl, tt)
assign-cases ((parameter, attribute) ∷ ps) args = elim (Option-cases (lookup parameter args)) [
  | inl e ↦ inr (rw e refl, ((parameter, attribute), Memᴰ.head refl, e))
  | inr (v, e) ↦ rw (e, or_raise) (rest v e (assign-cases ps args))
]
  where
    rest :
        (v : Json)
        → lookup parameter args ≡ some v
        → AssignedOrMissing ps args (assign ps args)
        → AssignedOrMissing
            ((parameter, attribute) ∷ ps)
            args
            (assign ps args >>= λ fs. ok (field attribute v fs))
    rest v e (inl (fs, q, h)) = inl (field attribute v fs, rw q refl, (refl, e, h))
    rest v e (inr (q, (p, m, n))) = inr (rw q refl, (p, Memᴰ.tail m, n))

module _ (loads : String → Option Json) where
  -- What a constructor with fixed parameters makes of its arguments: an exception with the
  -- attributes, if there is an argument for each parameter and no other; a `TypeError` if not.
  abbrev pub Fixed : KindClass → List (String × String) → Fields → Raises KindError → Type 0
  Fixed c ps args r =
      ((fs : Fields) × (r ≡ ok (record { class = c; attributes = fs }))
        × (fits ps args ≡ true)
        × Assigned ps args fs)
      ⊎ ((r ≡ err type_error) × ((fits ps args ≡ false) ⊎ Missing ps args))

  made : KindClass → List (String × String) → Fields → Bool → Raises KindError
  made c ps args b =
      if b
      then (do attributes ← assign ps args; ok (record { class = c; attributes = attributes }))
      else err type_error

  made-Fixed :
      (c : KindClass) (ps : List (String × String)) (args : Fields)
      → AssignedOrMissing ps args (assign ps args)
      → (b : Bool) → fits ps args ≡ b
      → Fixed c ps args (made c ps args b)
  unfolding made
  made-Fixed c ps args h false e = inr (refl, inl e)
  made-Fixed c ps args (inl (fs, q, assigned)) true e = inl (fs, rw q refl, e, assigned)
  made-Fixed c ps args (inr (q, missing)) true e = inr (rw q refl, inr missing)

  -- A constructor with fixed parameters makes an exception whose attributes hold the arguments, if
  -- there is an argument for each parameter and no other, and raises a `TypeError` if not; the
  -- shared default dict stays as it is.
  pub construct-Fixed :
      (c : KindClass) (ps : List (String × String)) (args default : Fields)
      → signature c ≡ exactly ps
      → Fixed c ps args (construct loads c args default).0
        × ((construct loads c args default).1 ≡ default)
  unfolding construct made
  construct-Fixed c ps args default e =
      rw (e, construct) (made-Fixed c ps args (assign-cases ps args) (fits ps args) refl, refl)

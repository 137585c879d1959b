-- ===== src/Errors/Kinds/Annotations.antt =====
-- The attributes that the classes of src/py_near/exceptions/exceptions.py announce in their bodies.
use py_near.Base.{
  String, Bool, true, false, ◌&&◌, Option, none, some, List, [], ◌∷◌, All, All-map, ok,
  ok-injective, ◌≡◌, refl, sym, ap, ◌∙◌, subst, inl, inr, str_eq, if◌then◌else◌,
}
use py_near.Json.{Json, Fields, end, field, lookup}
use py_near.Errors.Kinds.{
  KindClass, account_already_exists_error, account_does_not_exist_error,
  create_account_not_allowed_error, actor_no_permission_error, delete_key_does_not_exist_error,
  add_key_already_exists_error, delete_account_staking_error, delete_account_has_rent_error,
  rent_unpaid_error, tries_to_unstake_error, tries_to_stake_error, function_call_error,
  lack_balance_for_state, execution_error, new_receipt_validation_error, delegate_action_expired,
  delegate_action_invalid_nonce, delegate_action_invalid_signature, KindError, exactly, signature,
  construct,
}
use py_near.Errors.Kinds.Fixed.{Assigned, construct-Fixed}

-- The annotated names in the body of each class.
unfoldable pub annotations : KindClass → List String
annotations account_already_exists_error = "account_id" ∷ []
annotations account_does_not_exist_error = []
annotations create_account_not_allowed_error = "account_id" ∷ "predecessor_id" ∷ []
annotations actor_no_permission_error = "account_id" ∷ "actor_id" ∷ []
annotations delete_key_does_not_exist_error = "account_id" ∷ "public_key" ∷ []
annotations add_key_already_exists_error = "account_id" ∷ "public_key" ∷ []
annotations delete_account_staking_error = "account_id" ∷ []
annotations delete_account_has_rent_error = "account_id" ∷ "balance" ∷ []
annotations rent_unpaid_error = "account_id" ∷ "amount" ∷ []
annotations tries_to_unstake_error = "account_id" ∷ []
annotations tries_to_stake_error = "account_id" ∷ "stake" ∷ "locked" ∷ "balance" ∷ []
annotations function_call_error = "error" ∷ []
annotations lack_balance_for_state = "amount" ∷ "signer_id" ∷ []
annotations _ = []

-- The classes about a key.
abbrev pub about_key : KindClass → Bool
about_key delete_key_does_not_exist_error = true
about_key add_key_already_exists_error = true
about_key _ = false

-- The parameter that is stored under an attribute.
source_of : String → List (String × String) → Option String
source_of name [] = none
source_of name ((parameter, attribute) ∷ ps) =
    if str_eq attribute name then some parameter else source_of name ps

abbrev value_of : Fields → Option String → Option Json
value_of args none = none
value_of args (some parameter) = lookup parameter args

Assigned-lookup :
    (ps : List (String × String)) (args fs : Fields) (name : String)
    → Assigned ps args fs
    → lookup name fs ≡ value_of args (source_of name ps)
unfolding lookup source_of
Assigned-lookup [] args end name h = refl
Assigned-lookup [] args (field k v fs) name h = elim h [ ]
Assigned-lookup (p ∷ ps) args end name h = elim h [ ]
Assigned-lookup ((parameter, attribute) ∷ ps) args (field k v fs) name (same, e, h) =
    rw same (by_test (str_eq attribute name) _ e (Assigned-lookup ps args fs name h))
  where
    by_test :
        (b : Bool) {x : Option Json} (y : Option String)
        → lookup parameter args ≡ some v
        → x ≡ value_of args y
        → (if b then some v else x) ≡ value_of args (if b then some parameter else y)
    by_test true y found others = sym found
    by_test false y found others = others

-- An annotated name and the parameter that is stored there.
abbrev Sourced : KindClass → List (String × String) → String → Type 0
Sourced c ps name =
    source_of name ps ≡ (if about_key c && str_eq name "public_key" then none else some name)

exactly-injective : {ps qs : List (String × String)} → exactly ps ≡ exactly qs → ps ≡ qs
exactly-injective h = cc

sourced :
    (c : KindClass) {qs : List (String × String)} (ps : List (String × String))
    → exactly qs ≡ exactly ps
    → All (Sourced c qs) (annotations c)
    → All (Sourced c ps) (annotations c)
sourced c ps h found = subst (λ rs. All (Sourced c rs) (annotations c)) (exactly-injective h) found

annotations-Sourced :
    (c : KindClass) (ps : List (String × String))
    → signature c ≡ exactly ps
    → All (Sourced c ps) (annotations c)
unfolding annotations signature source_of str_eq
annotations-Sourced account_already_exists_error ps h =
    sourced account_already_exists_error ps h (refl, tt)
annotations-Sourced delete_account_staking_error ps h =
    sourced delete_account_staking_error ps h (refl, tt)
annotations-Sourced tries_to_unstake_error ps h = sourced tries_to_unstake_error ps h (refl, tt)
annotations-Sourced create_account_not_allowed_error ps h =
    sourced create_account_not_allowed_error ps h (refl, (refl, tt))
annotations-Sourced actor_no_permission_error ps h =
    sourced actor_no_permission_error ps h (refl, (refl, tt))
annotations-Sourced delete_key_does_not_exist_error ps h =
    sourced delete_key_does_not_exist_error ps h (refl, (refl, tt))
annotations-Sourced add_key_already_exists_error ps h =
    sourced add_key_already_exists_error ps h (refl, (refl, tt))
annotations-Sourced delete_account_has_rent_error ps h =
    sourced delete_account_has_rent_error ps h (refl, (refl, tt))
annotations-Sourced rent_unpaid_error ps h = sourced rent_unpaid_error ps h (refl, (refl, tt))
annotations-Sourced tries_to_stake_error ps h =
    sourced tries_to_stake_error ps h (refl, (refl, (refl, (refl, tt))))
annotations-Sourced account_does_not_exist_error ps h = tt
annotations-Sourced execution_error ps h = tt
annotations-Sourced new_receipt_validation_error ps h = tt
annotations-Sourced delegate_action_expired ps h = tt
annotations-Sourced delegate_action_invalid_nonce ps h = tt
annotations-Sourced delegate_action_invalid_signature ps h = tt
annotations-Sourced function_call_error ps h = cc
annotations-Sourced lack_balance_for_state ps h = cc

value_of-if :
    (args : Fields) (name : String) (b : Bool)
    → value_of args (if b then none else some name) ≡ (if b then none else lookup name args)
value_of-if args name true = refl
value_of-if args name false = refl

module _ (loads : String → Option Json) where
  -- What an exception has under an annotated name.
  abbrev pub Announced : KindClass → Fields → KindError → String → Type 0
  Announced c args e name =
      lookup name e.attributes
      ≡ (if about_key c && str_eq name "public_key" then none else lookup name args)

  -- Under each name that a class with fixed parameters announces in its body, its exceptions hold the
  -- argument of that name; but in the two classes about a key there is no public_key.
  pub construct-Announced :
      (c : KindClass) (ps : List (String × String)) (args default : Fields) (e : KindError)
      → signature c ≡ exactly ps
      → (construct loads c args default).0 ≡ ok e
      → All (Announced c args e) (annotations c)
  construct-Announced c ps args default e h made =
      elim ((construct-Fixed loads c ps args default h).0) [
        | inl (fs, q, _, assigned) ↦
            let same : e.attributes ≡ fs = ap (λ r. r.attributes) (ok-injective (sym made ∙ q)) in
            All-map
              (λ name source.
                ap (lookup name) same
                ∙ Assigned-lookup ps args fs name assigned
                ∙ ap (value_of args) source
                ∙ value_of-if args name _)
              (annotations c) (annotations-Sourced c ps h)
        | inr (q, _) ↦ cc
      ]

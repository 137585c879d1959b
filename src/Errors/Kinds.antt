-- ===== src/Errors/Kinds.antt =====
-- `parse_error` of src/py_near/exceptions/exceptions.py and the constructors that it calls.
pub mod Parsing
pub mod Fixed
pub mod Annotations
use py_near.Base.{
  String, Bool, true, false, ◌&&◌, Option, none, some, List, [], ◌∷◌, any, ok, err, ◌>>=◌, str_eq,
  or_raise, if◌then◌else◌,
}
use py_near.Json.{Json, obj, Fields, end, field, lookup, without_key}
use py_near.Python.{keywords}
use py_near.Errors.Build.{tx_attributes}
use py_near.Errors.Exception.{Raises, key_error, type_error}

-- The classes of exceptions.py below its `ActionErrorKind`, and the one of provider.py in the table.
pub data KindClass : Type 0 where
  account_already_exists_error account_does_not_exist_error create_account_not_allowed_error :
      KindClass
  actor_no_permission_error delete_key_does_not_exist_error add_key_already_exists_error : KindClass
  delete_account_staking_error delete_account_has_rent_error rent_unpaid_error : KindClass
  tries_to_unstake_error tries_to_stake_error function_call_error execution_error : KindClass
  new_receipt_validation_error delegate_action_expired lack_balance_for_state : KindClass
  delegate_action_invalid_nonce delegate_action_invalid_signature : KindClass

pub record KindError : Type 0 where
  pub class : KindClass
  pub attributes : Fields

-- `except FunctionCallError`, by the bases in the class statements.
unfoldable pub is_function_call_error : KindClass → Bool
is_function_call_error function_call_error = true
is_function_call_error execution_error = true
is_function_call_error _ = false

-- How a class takes its keyword arguments: any, as attributes of the same names; any, with the dict
-- of all of them as `error` too; or a fixed list, each stored under the attribute beside it.
pub data Signature : Type 0 where
  any_keywords keywords_as_error mutable_default : Signature
  exactly : List (String × String) → Signature

unfoldable pub signature : KindClass → Signature
signature account_already_exists_error = exactly (("account_id", "account_id") ∷ [])
signature account_does_not_exist_error = any_keywords
signature create_account_not_allowed_error =
    exactly (("account_id", "account_id") ∷ ("predecessor_id", "predecessor_id") ∷ [])
signature actor_no_permission_error =
    exactly (("account_id", "account_id") ∷ ("actor_id", "actor_id") ∷ [])
signature delete_key_does_not_exist_error =
    exactly (("account_id", "account_id") ∷ ("public_key", "actor_id") ∷ [])
signature add_key_already_exists_error =
    exactly (("account_id", "account_id") ∷ ("public_key", "actor_id") ∷ [])
signature delete_account_staking_error = exactly (("account_id", "account_id") ∷ [])
signature delete_account_has_rent_error =
    exactly (("account_id", "account_id") ∷ ("balance", "balance") ∷ [])
signature rent_unpaid_error = exactly (("account_id", "account_id") ∷ ("amount", "amount") ∷ [])
signature tries_to_unstake_error = exactly (("account_id", "account_id") ∷ [])
signature tries_to_stake_error = exactly (
    ("account_id", "account_id")
    ∷ ("stake", "stake")
    ∷ ("locked", "locked")
    ∷ ("balance", "balance")
    ∷ [])
signature function_call_error = keywords_as_error
signature execution_error = keywords_as_error
signature new_receipt_validation_error = any_keywords
signature delegate_action_expired = any_keywords
signature lack_balance_for_state = mutable_default
signature delegate_action_invalid_nonce = any_keywords
signature delegate_action_invalid_signature = any_keywords

-- `_ERROR_TYPE_TO_EXCEPTION`
abbrev pub error_type_to_exception : List (String × KindClass)
error_type_to_exception =
    ("AccountAlreadyExists", account_already_exists_error)
    ∷ ("AccountDoesNotExist", account_does_not_exist_error)
    ∷ ("CreateAccountNotAllowed", create_account_not_allowed_error)
    ∷ ("ActorNoPermission", actor_no_permission_error)
    ∷ ("DeleteKeyDoesNotExist", delete_key_does_not_exist_error)
    ∷ ("AddKeyAlreadyExists", add_key_already_exists_error)
    ∷ ("DeleteAccountStaking", delete_account_staking_error)
    ∷ ("DeleteAccountHasRent", delete_account_has_rent_error)
    ∷ ("RentUnpaid", rent_unpaid_error)
    ∷ ("TriesToUnstake", tries_to_unstake_error)
    ∷ ("TriesToStake", tries_to_stake_error)
    ∷ ("FunctionCallError", function_call_error)
    ∷ ("ExecutionError", execution_error)
    ∷ ("NewReceiptValidationError", new_receipt_validation_error)
    ∷ ("DelegateActionExpired", delegate_action_expired)
    ∷ ("LackBalanceForState", lack_balance_for_state)
    ∷ ("DelegateActionInvalidNonce", delegate_action_invalid_nonce)
    ∷ ("DelegateActionInvalidSignature", delegate_action_invalid_signature)
    ∷ []

unfoldable pub find_kind : String → List (String × KindClass) → Option KindClass
find_kind key [] = none
find_kind key ((k, c) ∷ rest) = if str_eq k key then some c else find_kind key rest

-- No keyword beyond the parameters.
abbrev pub fits : List (String × String) → Fields → Bool
fits ps end = true
fits ps (field k v fs) = any (λ p. str_eq p.0 k) ps && fits ps fs

-- The attributes that a constructor with fixed parameters writes, or the missing parameter.
unfoldable pub assign : List (String × String) → Fields → Raises Fields
assign [] args = ok end
assign ((parameter, attribute) ∷ ps) args = do
  v ← or_raise (lookup parameter args) type_error
  rest ← assign ps args
  ok (field attribute v rest)

-- `d.update(args)`: an old key keeps its place.
unfoldable pub put : String → Json → Fields → Fields
put key v end = field key v end
put key v (field k w fs) = if str_eq k key then field k v fs else field k w (put key v fs)

unfoldable pub update : Fields → Fields → Fields
unfolding put
update d end = d
update d (field k v fs) = update (put k v d) fs

-- `LackBalanceForState(**args)`: with no `data` among the arguments the attributes are written
-- into the one dict that is the default of `TxExecutionError.__init__`, and stay there.
module _ (loads : String → Option Json) where
  -- The default dict is passed through, as it is after the call.
  unfoldable pub construct : KindClass → Fields → Fields → Raises KindError × Fields
  unfolding signature assign update
  construct c args default = elim (signature c) [
    | any_keywords ↦ (ok (record { class = c; attributes = args }), default)
    | keywords_as_error ↦
        (ok (record { class = c; attributes = put "error" (obj args) args }), default)
    | mutable_default ↦ elim (lookup "data" args) [
      | none ↦
          let d = update default (without_key "error_json" args) in
          (ok (record { class = c; attributes = d }), d)
      | some d ↦ (
        (do
          old ← tx_attributes loads d
          ok (record {
            class = c;
            attributes = update old (without_key "data" (without_key "error_json" args));
          })),
        default,
      )
    ]
    | exactly ps ↦ (
      (if fits ps args
          then (do attributes ← assign ps args; ok (record { class = c; attributes = attributes }))
          else err type_error),
      default,
    )
  ]

  -- `_ERROR_TYPE_TO_EXCEPTION[error_type](**args)`
  unfoldable pub parse_error : String → Json → Fields → Raises KindError × Fields
  unfolding construct
  parse_error error_type args default = elim (find_kind error_type error_type_to_exception) [
    | none ↦ (err (key_error error_type), default)
    | some c ↦ elim (keywords args) [ ok fs ↦ construct c fs default | err e ↦ (err e, default) ]
  ]

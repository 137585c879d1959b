-- ===== src/Errors/Classes/Annotations.antt =====
-- The attributes that the classes of src/py_near/exceptions/provider.py announce in their bodies.
use py_near.Base.{String, Bool, true, false, ◌||◌, List, [], ◌∷◌, Memᴰ, ◌≡◌, refl, arith}
use py_near.Errors.Classes.{
  ErrorClass, json_provider_error, account_already_exists, account_does_not_exist,
  create_account_not_allowed, actor_no_permission, delete_key_does_not_exist,
  add_key_already_exists, delete_account_staking, delete_account_has_rent, rent_unpaid,
  tries_to_unstake, tries_to_stake, action_error, invalid_nonce, invalid_signer_id,
  signer_does_not_exist, invalid_receiver_id, not_enough_balance, lack_balance_for_state,
  transaction_error, tx_execution_error, class_eq, is_subclass,
}

-- The annotated names in the body of each class.
unfoldable pub annotations : ErrorClass → List String
annotations json_provider_error = "trx_hash" ∷ "error_json" ∷ []
annotations account_already_exists = "account_id" ∷ []
annotations account_does_not_exist = "account_id" ∷ []
annotations create_account_not_allowed = "account_id" ∷ "predecessor_id" ∷ []
annotations actor_no_permission = "account_id" ∷ "actor_id" ∷ []
annotations delete_key_does_not_exist = "account_id" ∷ "public_key" ∷ []
annotations add_key_already_exists = "account_id" ∷ "public_key" ∷ []
annotations delete_account_staking = "account_id" ∷ []
annotations delete_account_has_rent = "account_id" ∷ "balance" ∷ []
annotations rent_unpaid = "account_id" ∷ "amount" ∷ []
annotations tries_to_unstake = "account_id" ∷ []
annotations tries_to_stake = "account_id" ∷ "stake" ∷ "locked" ∷ "balance" ∷ []
annotations action_error = "index" ∷ "kind" ∷ []
annotations invalid_nonce = "tx_nonce" ∷ "ak_nonce" ∷ []
annotations invalid_signer_id = "signer_id" ∷ []
annotations signer_does_not_exist = "signer_id" ∷ []
annotations invalid_receiver_id = "receiver_id" ∷ []
annotations not_enough_balance = "signer_id" ∷ "balance" ∷ "cost" ∷ []
annotations lack_balance_for_state = "amount" ∷ "signer_id" ∷ []
annotations _ = []

abbrev is_empty : List String → Bool
is_empty [] = true
is_empty (x ∷ xs) = false

not_empty : (name : String) (xs : List String) → Memᴰ name xs → is_empty xs ≡ false
not_empty name [] m = elim m [ ]
not_empty name (x ∷ xs) m = refl

-- Only classes below `TxExecutionError` announce something, but for the first class and `ActionError`.
announcing-below :
    (c : ErrorClass)
    → (is_subclass c tx_execution_error
        || class_eq c action_error
        || class_eq c json_provider_error
        || is_empty (annotations c))
      ≡ true
unfolding annotations is_subclass
announcing-below transaction_error = refl
announcing-below _ = refl

pub annotated-below :
    (c : ErrorClass) (name : String)
    → Memᴰ name (annotations c)
    → class_eq c action_error ≡ false
    → class_eq c json_provider_error ≡ false
    → is_subclass c tx_execution_error ≡ true
annotated-below c name m h k = ground (arith, announcing-below c, not_empty name (annotations c) m)

-- ===== src/Errors/Classes.antt =====
-- The class hierarchy of src/py_near/exceptions/provider.py and its two tables.
pub mod Annotations
use py_near.Base.{
  ℕ, zero, suc, String, Bool, true, false, ◌||◌, Option, none, some, List, [], ◌∷◌, any, str_eq,
  if◌then◌else◌,
}

pub data ErrorClass : Type 0 where
  json_provider_error transaction_error account_error block_error access_key_error : ErrorClass
  unknown_access_key_error unknown_block_error internal_error no_synced_yet_error : ErrorClass
  invalid_account unknown_account no_contract_code_error too_large_contract_state_error : ErrorClass
  unavailable_shard_error no_synced_blocks_error invalid_transaction_error : ErrorClass
  tx_execution_error invalid_tx_error action_error_kind account_already_exists : ErrorClass
  account_does_not_exist create_account_not_allowed actor_no_permission : ErrorClass
  delete_key_does_not_exist add_key_already_exists delete_account_staking : ErrorClass
  delete_account_has_rent rent_unpaid tries_to_unstake tries_to_stake : ErrorClass
  function_call_error new_receipt_validation_error action_error invalid_nonce : ErrorClass
  invalid_access_key_error invalid_signer_id signer_does_not_exist invalid_receiver_id : ErrorClass
  not_enough_balance lack_balance_for_state cost_overflow invalid_chain expired : ErrorClass
  actions_validation invalid_signature rpc_timeout_error : ErrorClass

unfoldable pub ErrorClass-discrete : Discrete ErrorClass
ErrorClass-discrete = hlevel

unfoldable pub class_eq : ErrorClass → ErrorClass → Bool
unfolding ErrorClass-discrete
class_eq c d = elim (ErrorClass-discrete c d) [ yes _ ↦ true | no _ ↦ false ]

-- The bases in each class statement.
unfoldable pub bases : ErrorClass → List ErrorClass
bases json_provider_error = []
bases transaction_error = json_provider_error ∷ []
bases account_error = json_provider_error ∷ []
bases block_error = json_provider_error ∷ []
bases access_key_error = json_provider_error ∷ []
bases unknown_access_key_error = access_key_error ∷ []
bases unknown_block_error = block_error ∷ []
bases internal_error = transaction_error ∷ account_error ∷ block_error ∷ []
bases no_synced_yet_error = block_error ∷ []
bases invalid_account = account_error ∷ []
bases unknown_account = account_error ∷ []
bases no_contract_code_error = account_error ∷ []
bases too_large_contract_state_error = account_error ∷ []
bases unavailable_shard_error = account_error ∷ []
bases no_synced_blocks_error = account_error ∷ []
bases invalid_transaction_error = transaction_error ∷ []
bases tx_execution_error = invalid_transaction_error ∷ []
bases invalid_tx_error = tx_execution_error ∷ []
bases action_error_kind = tx_execution_error ∷ []
bases account_already_exists = action_error_kind ∷ []
bases account_does_not_exist = action_error_kind ∷ []
bases create_account_not_allowed = action_error_kind ∷ []
bases actor_no_permission = action_error_kind ∷ []
bases delete_key_does_not_exist = action_error_kind ∷ []
bases add_key_already_exists = action_error_kind ∷ []
bases delete_account_staking = action_error_kind ∷ []
bases delete_account_has_rent = action_error_kind ∷ []
bases rent_unpaid = action_error_kind ∷ []
bases tries_to_unstake = action_error_kind ∷ []
bases tries_to_stake = action_error_kind ∷ []
bases function_call_error = action_error_kind ∷ []
bases new_receipt_validation_error = action_error_kind ∷ []
bases action_error = tx_execution_error ∷ []
bases invalid_nonce = invalid_tx_error ∷ []
bases invalid_access_key_error = invalid_tx_error ∷ []
bases invalid_signer_id = invalid_tx_error ∷ []
bases signer_does_not_exist = invalid_tx_error ∷ []
bases invalid_receiver_id = invalid_tx_error ∷ []
bases not_enough_balance = invalid_tx_error ∷ []
bases lack_balance_for_state = invalid_tx_error ∷ []
bases cost_overflow = invalid_tx_error ∷ []
bases invalid_chain = invalid_tx_error ∷ []
bases expired = invalid_tx_error ∷ []
bases actions_validation = invalid_tx_error ∷ []
bases invalid_signature = invalid_tx_error ∷ []
bases rpc_timeout_error = transaction_error ∷ []

-- `isinstance`, by a walk up the bases of at most the given number of levels.
unfoldable pub subclass_within : ℕ → ErrorClass → ErrorClass → Bool
subclass_within zero c d = class_eq c d
subclass_within (suc levels) c d = class_eq c d || any (λ b. subclass_within levels b d) (bases c)

-- No class stands more than five levels below `JsonProviderError`.
unfoldable pub is_subclass : ErrorClass → ErrorClass → Bool
unfolding subclass_within class_eq bases
is_subclass = subclass_within 5

abbrev pub Table : Type 0
Table = List (String × ErrorClass)

-- `key in table` and `table[key]` together.
unfoldable pub find_class : String → Table → Option ErrorClass
find_class key [] = none
find_class key ((k, c) ∷ rest) = if str_eq k key then some c else find_class key rest

abbrev pub error_code_to_exception : Table
error_code_to_exception =
    ("AccessKeyError", access_key_error)
    ∷ ("AccountAlreadyExists", account_already_exists)
    ∷ ("AccountDoesNotExist", account_does_not_exist)
    ∷ ("AccountError", account_error)
    ∷ ("ActionError", action_error)
    ∷ ("ActionErrorKind", action_error_kind)
    ∷ ("ActionsValidation", actions_validation)
    ∷ ("ActorNoPermission", actor_no_permission)
    ∷ ("AddKeyAlreadyExists", add_key_already_exists)
    ∷ ("BlockError", block_error)
    ∷ ("CostOverflow", cost_overflow)
    ∷ ("CreateAccountNotAllowed", create_account_not_allowed)
    ∷ ("DeleteAccountHasRent", delete_account_has_rent)
    ∷ ("DeleteAccountStaking", delete_account_staking)
    ∷ ("DeleteKeyDoesNotExist", delete_key_does_not_exist)
    ∷ ("Expired", expired)
    ∷ ("FunctionCallError", function_call_error)
    ∷ ("InternalError", internal_error)
    ∷ ("InvalidAccessKeyError", invalid_access_key_error)
    ∷ ("InvalidAccount", invalid_account)
    ∷ ("InvalidChain", invalid_chain)
    ∷ ("InvalidNonce", invalid_nonce)
    ∷ ("InvalidReceiverId", invalid_receiver_id)
    ∷ ("InvalidSignature", invalid_signature)
    ∷ ("InvalidSignerId", invalid_signer_id)
    ∷ ("InvalidTransactionError", invalid_transaction_error)
    ∷ ("InvalidTxError", invalid_tx_error)
    ∷ ("JsonProviderError", json_provider_error)
    ∷ ("NewReceiptValidationError", new_receipt_validation_error)
    ∷ ("NoContractCodeError", no_contract_code_error)
    ∷ ("NoSyncedBlocksError", no_synced_blocks_error)
    ∷ ("NoSyncedYetError", no_synced_yet_error)
    ∷ ("NotEnoughBalance", not_enough_balance)
    ∷ ("LackBalanceForState", lack_balance_for_state)
    ∷ ("RentUnpaid", rent_unpaid)
    ∷ ("RpcTimeoutError", rpc_timeout_error)
    ∷ ("SignerDoesNotExist", signer_does_not_exist)
    ∷ ("TooLargeContractStateError", too_large_contract_state_error)
    ∷ ("TransactionError", transaction_error)
    ∷ ("TriesToStake", tries_to_stake)
    ∷ ("TriesToUnstake", tries_to_unstake)
    ∷ ("TxExecutionError", tx_execution_error)
    ∷ ("UnavailableShardError", unavailable_shard_error)
    ∷ ("UnknownAccessKeyError", unknown_access_key_error)
    ∷ ("UnknownAccount", unknown_account)
    ∷ ("UnknownBlockError", unknown_block_error)
    ∷ []

-- `_ACTION_ERROR_KINDS`
abbrev pub action_error_kinds : Table
action_error_kinds =
    ("AccountAlreadyExists", account_already_exists)
    ∷ ("ActorNoPermission", actor_no_permission)
    ∷ ("CreateAccountNotAllowed", create_account_not_allowed)
    ∷ ("AccountDoesNotExist", account_does_not_exist)
    ∷ ("DeleteKeyDoesNotExist", delete_key_does_not_exist)
    ∷ ("DeleteAccountStaking", delete_account_staking)
    ∷ ("AddKeyAlreadyExists", add_key_already_exists)
    ∷ ("DeleteAccountHasRent", delete_account_has_rent)
    ∷ ("RentUnpaid", rent_unpaid)
    ∷ ("TriesToUnstake", tries_to_unstake)
    ∷ ("TriesToStake", tries_to_stake)
    ∷ ("FunctionCallError", function_call_error)
    ∷ ("ActionErrorKind", action_error_kind)
    ∷ []

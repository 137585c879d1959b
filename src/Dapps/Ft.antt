-- ===== src/Dapps/Ft.antt =====
-- `FT` of src/py_near/dapps/ft/async_client.py.
pub mod Registration
use py_near.Base.{ℕ, ◌/◌, String, Bool, false, Option, none, some, ok, err, ltb, if◌then◌else◌}
use py_near.Base.Method.{pure, lift, ◌>>=◌, ◌>>◌}
use py_near.Constants.{default_attached_gas}
use py_near.Json.{Json, str, obj, field, end}
use py_near.Errors.Exception.{Raises}
use py_near.Provider.Network.{Network}
use py_near.Provider.Rpc.{given}
use py_near.Transactions.{Primitives}
use py_near.Account.State.{Account, State}
use py_near.Account.Chain.{Action, view_function}
use py_near.Account.Submit.{plain}
use py_near.Account.Calls.{Call, function_call}
use py_near.Dapps.Raised.{Ending, ClientCall, caught, ended, except_function_call_error}
use py_near.Dapps.Except.{except_transfer}
use py_near.Dapps.Views.{
  near, FtModel, FtTokenMetadata, Contract, model, contract_of, Outside, int_or_zero, total_of,
  account_args, metadata_of,
}

-- `if not account_id: account_id = self._account.account_id`
unfoldable pub account_or_own : Option String → Account → String
account_or_own account_id a = elim (given account_id) [ none ↦ a.account_id | some name ↦ name ]

module _ (prim : Primitives) (net : Network) where
  -- `view_function` of the contract for an account.
  abbrev pub view_account : String → String → Option String → Action prim net Json
  view_account contract_id method account_id s =
      (do
        result ←
            view_function prim net contract_id method
              (account_args (account_or_own account_id s.account)) none none
        pure result.result)
        s

  unfoldable pub get_ft_raw_balance : String → Option String → Action prim net ℕ
  get_ft_raw_balance contract_id account_id = do
    result ← view_account contract_id "ft_balance_of" account_id
    lift (int_or_zero result)

  unfoldable pub storage_balance_of : Contract → Option String → Action prim net ℕ
  storage_balance_of ft account_id = do
    res ← view_account (contract_of ft) "storage_balance_of" account_id
    lift (total_of res)

  unfoldable pub storage_deposit : Contract → Option String → ℕ → Call prim net
  storage_deposit ft account_id amount s =
      function_call prim net (contract_of ft) "storage_deposit"
        (account_args (account_or_own account_id s.account)) default_attached_gas amount false false
        s

  -- What follows a call that was awaited for its effect.
  abbrev pub then_call : Ending net → ClientCall net → Ending net
  then_call none next = none
  then_call (some (err r, s)) next = some (err r, s)
  then_call (some (ok sent, s)) next = next s

  -- The deposit of `force_register`, for the balance that was found.
  abbrev pub deposit_below : FtModel → String → ClientCall net → Raises ℕ × State net → Ending net
  deposit_below ft receiver_id next (err e, s) = ended net (some (plain prim net (err e, s)))
  deposit_below ft receiver_id next (ok balance, s) =
      if ltb balance (near / 500)
      then then_call (ended net (storage_deposit (model ft) (some receiver_id) (near / 50) s)) next
      else next s

  unfoldable pub registered : FtModel → String → Bool → ClientCall net → ClientCall net
  registered ft receiver_id force_register next s =
      if force_register
      then deposit_below ft receiver_id next (storage_balance_of (model ft) (some receiver_id) s)
      else next s

  -- `function_call` of `transfer` and `transfer_call`.
  unfoldable pub token_call : FtModel → String → String → String → String → Bool → Call prim net
  token_call ft method receiver_id amount memo nowait =
      function_call prim net ft.contract_id method
        (obj (
          field "receiver_id" (str receiver_id)
            (field "amount" (str amount) (field "msg" (str memo) end))))
        default_attached_gas 1 nowait false

  module _ (out : Outside) where
    open out use {Float, divided, units}

    unfoldable pub get_ft_balance : FtModel → Option String → Action prim net Float
    get_ft_balance ft account_id s =
        (do
          raw ← get_ft_raw_balance ft.contract_id (some (account_or_own account_id s.account))
          pure (divided raw ft.decimal))
          s

    unfoldable pub get_metadata : Contract → Action prim net FtTokenMetadata
    get_metadata ft = do
      result ← view_function prim net (contract_of ft) "ft_metadata" (obj end) none none
      lift (metadata_of out result.result)

    unfoldable pub transfer : FtModel → String → Float → String → Bool → Bool → ClientCall net
    transfer ft receiver_id amount memo force_register nowait =
        registered ft receiver_id force_register (λ s.
          caught net (except_function_call_error except_transfer) (
            ended net
              (token_call ft "ft_transfer" receiver_id (units amount ft.decimal) memo nowait s)))

    unfoldable pub transfer_call : FtModel → String → Float → String → Bool → Bool → ClientCall net
    transfer_call ft receiver_id amount memo force_register nowait =
        registered ft receiver_id force_register (λ s.
          ended net
            (token_call ft "ft_transfer_call" receiver_id (units amount ft.decimal) memo nowait s))

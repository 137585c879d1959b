-- ===== src/Dapps/Staking.antt =====
-- `Staking` of src/py_near/dapps/staking/async_client.py.
use py_near.Base.{ℕ, String, Bool, false, Option, none, some, ok, err}
use py_near.Base.Method.{pure, lift, ◌>>=◌}
use py_near.Text.Decimal.{decimal}
use py_near.Constants.{default_attached_gas}
use py_near.Json.{Json, str, obj, field, end, single}
use py_near.Errors.Exception.{Raises}
use py_near.Provider.Network.{Network}
use py_near.Transactions.{Primitives}
use py_near.Account.Chain.{Action, view_function, named}
use py_near.Account.Submit.{plain}
use py_near.Account.Calls.{Call, function_call}
use py_near.Dapps.Raised.{ClientCall, caught, ended, except_function_call_error}
use py_near.Dapps.Except.{except_staking_transfer, except_unstake}
use py_near.Dapps.Views.{Outside, StakingData, int_or_zero, staking_contract, account_args, user_of}

module _ (prim : Primitives) (net : Network) where
  abbrev pub call_on : Raises String → String → Json → ℕ → Bool → Call prim net
  call_on (err e) method args amount nowait s = some (plain prim net (err e, s))
  call_on (ok contract_id) method args amount nowait s =
      function_call prim net contract_id method args default_attached_gas amount nowait false s

  -- `function_call` of the contract of the account's chain.
  unfoldable pub staking_call : String → Json → ℕ → Bool → Call prim net
  staking_call method args amount nowait s =
      call_on (staking_contract s.account.chain_id) method args amount nowait s

  -- `view_function` of the contract of the account's chain.
  unfoldable pub staking_view : String → Option String → Action prim net Json
  staking_view method account_id s =
      (do
        contract_id ← lift (staking_contract s.account.chain_id)
        result ←
            view_function prim net contract_id method
              (account_args (named prim net account_id s.account)) none none
        pure result.result)
        s

  abbrev pub token_args : String → String → String → Json
  token_args receiver_id amount memo = obj (
      field "receiver_id" (str receiver_id)
        (field "amount" (str amount) (field "msg" (str memo) end)))

  unfoldable pub get_staking_amount : Option String → Action prim net ℕ
  get_staking_amount account_id = do
    res ← staking_view "ft_balance_of" account_id
    lift (int_or_zero res)

  -- `stake` of the client.
  unfoldable pub stake : ℕ → Bool → Call prim net
  stake amount nowait = staking_call "storage_deposit" (obj end) amount nowait

  unfoldable pub receive_dividends : Bool → Call prim net
  receive_dividends nowait = staking_call "receive_dividends" (obj end) 1 nowait

  unfoldable pub transfer_call : String → ℕ → String → Bool → Call prim net
  transfer_call receiver_id amount memo nowait =
      staking_call "ft_transfer_call" (token_args receiver_id (decimal amount) memo) 1 nowait

  unfoldable pub unstake : ℕ → Bool → ClientCall net
  unstake amount nowait s = caught net (except_function_call_error except_unstake) (
      ended net
        (staking_call "storage_withdraw" (single "amount" (str (decimal amount))) 1 nowait s))

  module _ (out : Outside) where
    open out use {Float, written}

    unfoldable pub transfer : String → Float → String → Bool → ClientCall net
    transfer receiver_id amount memo nowait s =
        caught net (except_function_call_error except_staking_transfer) (
          ended net
            (staking_call "ft_transfer" (token_args receiver_id (written amount) memo) 1 nowait s))

    unfoldable pub get_user : Option String → Action prim net (Option StakingData)
    get_user account_id = do res ← staking_view "get_user" account_id; lift (user_of out res)

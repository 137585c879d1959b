-- ===== src/Dapps/Views.antt =====
-- How the clients of src/py_near/dapps read results, and what they leave to other libraries.
use py_near.Base.{ℕ, String, Option, none, some, ok, err, ◌>>=◌, or_raise, str_eq, if◌then◌else◌}
use py_near.Json.{Json, str, arr, obj, Fields, truthy, single}
use py_near.Python.{get_item, int, keywords}
use py_near.Errors.Exception.{Raises, key_error, type_error, value_error}

-- `NEAR`
abbrev pub near : ℕ
near = 1_000_000_000_000_000_000_000_000

pub record FtModel : Type 0 where
  pub contract_id : String
  pub decimal : ℕ

-- `Union[FtModel, str]`
pub data Contract : Type 0 where
  model : FtModel → Contract
  named : String → Contract

unfoldable pub contract_of : Contract → String
contract_of (model ft) = ft.contract_id
contract_of (named contract_id) = contract_id

pub record FtTokenMetadata : Type 0 where
  pub spec : String
  pub name : String
  pub symbol : String
  pub icon : String
  pub reference : String
  pub reference_hash : String
  pub decimals : ℕ

pub record StakingData : Type 0 where
  pub apy_value : ℕ
  pub last_accrual_ts : ℕ
  pub accrued : ℕ

-- Floating point numbers: `amount / 10**decimal`, and the texts `str(int(amount * 10**decimal))`
-- and `str(amount)` of one. What pydantic makes of the fields of its two classes; an error of its own is
-- a `ValueError`.
pub record Outside : Type 1 where
  pub Float : Type 0
  pub divided : ℕ → ℕ → Float
  pub units : Float → ℕ → String
  pub written : Float → String
  pub ft_token_metadata : Fields → Option FtTokenMetadata
  pub staking_data : Fields → Option StakingData

-- `int(v or 0)`, and `int(v)` or 0 by an `if`.
unfoldable pub int_or_zero : Json → Raises ℕ
int_or_zero v = if truthy v then int v else ok 0

-- The result of `storage_balance_of`.
unfoldable pub total_of : Json → Raises ℕ
unfolding int_or_zero
total_of res = if truthy res then (do total ← get_item res "total"; int_or_zero total) else ok 0

-- `CONTRACT_ID[chain_id]`
unfoldable pub staking_contract : Json → Raises String
staking_contract (str chain_id) =
    if str_eq chain_id "mainnet"
    then ok "storage.herewallet.near"
    else if str_eq chain_id "testnet"
    then ok "storage.herewallet.testnet"
    else err (key_error chain_id)
staking_contract (arr vs) = err type_error
staking_contract (obj fs) = err type_error
staking_contract _ = err (key_error "")

abbrev pub account_args : String → Json
account_args account_id = single "account_id" (str account_id)

module _ (out : Outside) where
  open out use {ft_token_metadata, staking_data}

  -- `FtTokenMetadata(**result)`
  unfoldable pub metadata_of : Json → Raises FtTokenMetadata
  metadata_of result = do fs ← keywords result; or_raise (ft_token_metadata fs) value_error

  -- `StakingData(**res)`, or `None` where there is none.
  unfoldable pub user_of : Json → Raises (Option StakingData)
  user_of res =
      if truthy res
      then (do fs ← keywords res; data' ← or_raise (staking_data fs) value_error; ok (some data'))
      else ok none

-- ===== src/Dapps/Keypom.antt =====
-- `KeyPom` of src/py_near/dapps/keypom/async_client.py with the models of a drop. The file awaits in
-- `create_drop`, which is not async, and does not compile; the definitions read it as if `create_drop`
-- were async.
pub mod Models
pub mod Claims
use py_near.Base.{String, none, ok, err, str_eq, if◌then◌else◌}
use py_near.Base.Method.{pure, ◌>>=◌}
use py_near.Json.{Json, str, obj, Fields, end, field}
use py_near.Errors.Exception.{Raises, value_error}
use py_near.Provider.Network.{Network}
use py_near.Transactions.{Primitives}
use py_near.Models.Keys.{ViewFunctionResult}
use py_near.Account.State.{Account}
use py_near.Account.Answers.{set_field}
use py_near.Account.Chain.{Action, view_function}
use py_near.Dapps.Keypom.Models.{CreateDropModel}

-- The state of the client; the account is the one of the state.
pub record KeyPom : Type 0 where
  pub contract_id : String

-- `KeyPom.__init__`
unfoldable pub new_key_pom : Account → String → Raises KeyPom
new_key_pom a contract_id = elim a.chain_id [
  | str chain ↦
      if str_eq chain "mainnet" then ok (record { contract_id = contract_id }) else err value_error
  | _ ↦ err value_error
]

-- `{"account_id": account_id, password: password}`: the second key is the password itself.
unfoldable pub claim_args : String → String → Fields
unfolding set_field
claim_args account_id password =
    set_field password (str password) (field "account_id" (str account_id) end)

module _ (prim : Primitives) (net : Network) where
  -- `claim`
  unfoldable pub claim : KeyPom → String → String → Action prim net ViewFunctionResult
  unfolding claim_args
  claim client account_id password =
      view_function prim net client.contract_id "claim" (obj (claim_args account_id password)) none
        none

  -- `create_drop`; the dict of the drop is made by pydantic.
  unfoldable pub create_drop :
      (CreateDropModel → Json) → KeyPom → CreateDropModel → Action prim net Json
  create_drop dict client drop = do
    res ← view_function prim net client.contract_id "create_drop" (dict drop) none none
    pure res.result

-- ===== src/Tests/Failures.antt =====
-- Runs of the theorems on what the clients of src/py_near/dapps raise.
use py_near.Base.{false, none, [], ◌≡◌, refl}
use py_near.Errors.Exception.{value_error}
use py_near.Account.State.{State}
use py_near.Account.Submit.{Failure}
use py_near.Dapps.Raised.{failed}
use py_near.Dapps.Requests.{staking_unstake}
use py_near.Dapps.Requests.Failures.{perform-raises}
use py_near.Tests.Fixtures.{made, net, prim}
use py_near.Tests.Requests.{out}

-- An account without keys.
abbrev keyless : State net
keyless = record { account = record made { signers = [] }; nonces = []; world = [] }

abbrev unsigned : Failure
unsigned = record { exception = value_error; trx_hash = none }

perform-raises_example : (f : Failure) × (failed unsigned ≡ failed f)
unfolding py_near.Dapps.Staking.unstake py_near.Dapps.Staking.staking_call
    py_near.Dapps.Views.staking_contract py_near.Base.str_eq py_near.Account.Calls.function_call
    py_near.Account.Calls.submit py_near.Account.Submit.sign_and_submit_tx
perform-raises_example =
    perform-raises prim net out (staking_unstake 7 false) keyless keyless (failed unsigned) refl

-- ===== src/Tests/Signing.antt =====
-- Runs of the theorems on src/py_near/account.py and src/py_near/transactions.py.
use py_near.Base.{String, true, false, none, some, [], ◌∷◌, ok, err, ◌≡◌, refl}
use py_near.Json.{num, str}
use py_near.Errors.Exception.{Exception, key_error, type_error}
use py_near.Provider.Client.{address}
use py_near.Transactions.{
  calc_trx_hash, bytes, NearActions, nil, cons, key_bytes, public_key_of,
  sign_and_serialize_transaction, take,
}
use py_near.Transactions
use py_near.Account.Calls.{stake}
use py_near.Account.State.{Account, State, nonce_of, same_bytes, new_account}
use py_near.Account.Chain.{update_last_block_hash}
use py_near.Account.Submit.{next_nonce, submit_signed, sign_and_submit_tx}
use py_near.Account.Freshness.{IsFresh, update_last_block_hash-IsFresh}
use py_near.Account.Queue.{Ended, sign_and_submit_tx-Turn}
use py_near.Account.Nonces.{Call, InARow, calls-InARow, HasNonce, next_nonce_of_access_key}
use py_near.Account.Race.{Race, Reaches, cold_calls_collide}
use py_near.Account.Signed.{SignedFor, sign_tx-SignedFor}
use py_near.Account.Sign.{sign_tx, decode_hash}
use py_near.Account.Outcome.{Included, submit_signed-Included, stake_raises}
use py_near.Account.Delegate.{Delegating, sign_delegate_transaction, delegating_key}
use py_near.Account.Delegate.Unsigned.{new_account_signs_nothing}
use py_near.Models.Keys.{AccountAccessKey}
use py_near.Provider.Network.{raised, replied}
use py_near.Dapps.Views.{model}
use py_near.Dapps.Fts.{usdt}
use py_near.Dapps.Ft.{transfer, transfer_call, storage_balance_of}
use py_near.Dapps.Ft.Registration.{Registers, transfers-Register}
use py_near.Tests.Requests.{out}
use py_near.Tests.Fixtures.{key, made, net, prim, two_nodes}

-- An account with one key, whose block hash is a second old.
abbrev alice : Account
alice = record {
  provider = two_nodes;
  account_id = "alice.near";
  free_signers = key ∷ [];
  signers = key ∷ [];
  signer_by_pk = [];
  latest_block_hash = some (str "block");
  latest_block_hash_ts = 99_000_000;
  latest_block_height = num 9;
  chain_id = str "mainnet";
}

abbrev warm : State net
warm = record { account = alice; nonces = (key, num 5) ∷ []; world = [] }

abbrev payment : NearActions
payment = cons (Transactions.transfer 10) nil

abbrev pay : Call prim net key
pay = record { receiver_id = "bob.near"; actions = payment; nowait = true; included = false }

calls-InARow_example : InARow prim net key 5 (pay ∷ pay ∷ []) warm
unfolding nonce_of same_bytes
calls-InARow_example = calls-InARow prim net key 4 (pay ∷ pay ∷ []) warm refl

sign_and_submit_tx-Turn_example :
    Ended prim net key [] (sign_and_submit_tx prim net "bob.near" payment true false warm)
sign_and_submit_tx-Turn_example =
    sign_and_submit_tx-Turn prim net "bob.near" payment true false key key [] [] warm refl refl

update_last_block_hash-IsFresh_example : IsFresh prim net (update_last_block_hash prim net warm).1
unfolding update_last_block_hash
update_last_block_hash-IsFresh_example = update_last_block_hash-IsFresh prim net warm refl

cold_calls_collide_example :
    (r : Race) × Reaches key (record { nonces = []; waiting = 0; taken = [] }) r
    × (r.taken ≡ 8 ∷ 8 ∷ [])
cold_calls_collide_example = cold_calls_collide key 7

new_account_signs_nothing_example :
    ((d : Delegating) → (e : Exception) × (sign_delegate_transaction prim made d ≡ err e))
    × ((name : String) → delegating_key (some name) made ≡ err (key_error name))
unfolding new_account py_near.Account.State.add_keys py_near.Account.State.add_key public_key_of
    take
new_account_signs_nothing_example =
    new_account_signs_nothing prim "alice.near" (bytes key ∷ []) (address "http://a") made refl

submit_signed-Included_example :
    Included prim net "hash"
      (submit_signed prim net key "bob.near" false true (ok ("hash", "signed")) warm).0
submit_signed-Included_example =
    submit_signed-Included prim net key "bob.near" false "hash" "signed" warm

stake_raises_example :
    stake prim net "ed25519:key" "1000" true warm
    ≡ some (err (record { exception = type_error; trx_hash = none }), warm)
unfolding key_bytes
stake_raises_example = stake_raises prim net "ed25519:key" "1000" true warm (λ t pk. refl)

transfers-Register_example :
    Registers prim net usdt "bob.near"
      (transfer prim net out usdt "bob.near" 5 "" false true)
      (storage_balance_of prim net (model usdt) (some "bob.near") warm)
      (transfer prim net out usdt "bob.near" 5 "" true true warm)
    × Registers prim net usdt "bob.near"
        (transfer_call prim net out usdt "bob.near" 5 "" false true)
        (storage_balance_of prim net (model usdt) (some "bob.near") warm)
        (transfer_call prim net out usdt "bob.near" 5 "" true true warm)
transfers-Register_example = transfers-Register prim net usdt "bob.near" out 5 "" true warm

-- The second node gives the access key.
abbrev cold : State net
cold = record { account = alice; nonces = []; world = raised ∷ replied 200 "key" ∷ [] }

abbrev access_key : AccountAccessKey
access_key = record {
  block_hash = str "block";
  block_height = num 9;
  nonce = num 7;
  permission = str "FullAccess";
}

next_nonce_of_access_key_example :
    let (nonce, s2) = next_nonce prim net key cold in
    (nonce ≡ ok 8) × HasNonce prim net key 8 s2 × (s2.world ≡ [])
unfolding nonce_of py_near.Account.Chain.get_access_key public_key_of take
    py_near.Account.Chain.ask_access_key py_near.Provider.Queries.get_access_key
    py_near.Provider.Rpc.json_rpc py_near.Provider.Calls.call_rpc_request py_near.Json.truthy
    py_near.Provider.Address.authorise py_near.Text.has py_near.Provider.Client.decode
    py_near.Base.str_eq py_near.Python.contains py_near.Provider.Response.get_error_from_response
    py_near.Python.get_item py_near.Account.Answers.access_key_of
    py_near.Models.Keys.account_access_key
next_nonce_of_access_key_example =
    next_nonce_of_access_key prim net key 7 access_key cold (record cold { world = [] }) refl refl
      refl

sign_tx-SignedFor_example : SignedFor prim key "bob.near" payment 6 alice ("base58", "base64")
unfolding sign_tx decode_hash calc_trx_hash key_bytes public_key_of sign_and_serialize_transaction
sign_tx-SignedFor_example =
    sign_tx-SignedFor prim key "bob.near" payment 6 alice "base58" "base64" refl

-- ===== src/Tests/History.antt =====
-- Runs of the theorems on calls one after another, on what they return and on what only reads, of
-- src/py_near/account.py and src/py_near/dapps/keypom.
use py_near.Base.{
  String, false, true, none, some, [], ◌∷◌, ok, ◌≡◌, refl, ◌≢◌, ◌⊎◌, str_eq, str_eq_iff,
}
use py_near.Json.{Json, num, str, obj, Fields, lookup}
use py_near.Json
use py_near.Provider.Client.{address}
use py_near.Provider.Broadcast.{broadcast_loop}
use py_near.Transactions.{bytes, nil, cons, transfer, public_key_of}
use py_near.Account.State.{Account, State, new_account}
use py_near.Account.Submit.{answered, sign_and_submit_tx}
use py_near.Account.History.Ready.{Arguments, AllEnd, stop, step, new_account_calls-AllEnd}
use py_near.Account.History.Rising.{Risen, Runs-Risen}
use py_near.Account.Answered.{WritesHashes, Shape, sign_and_submit_tx-Shape}
use py_near.Account.Kept.Reads.{ReadsOnly}
use py_near.Dapps.Keypom.{claim}
use py_near.Account.Asked.Viewed.{viewing}
use py_near.Provider.Recorded.{recorded, OnlyPosted}
use py_near.Provider.Questions.Opening.{reachable, WasPosted}
use py_near.Dapps.Keypom.Claims.{claim_sends_no_password}
use py_near.Tests.Fixtures.{key, made, crowd, net, prim, two_nodes}

abbrev pay : Arguments
pay = record {
  receiver_id = "bob.near";
  actions = cons (transfer 10) nil;
  nowait = true;
  included = false;
}

new_account_calls-AllEnd_example :
    AllEnd prim net (pay ∷ pay ∷ []) (record { account = made; nonces = []; world = [] })
unfolding new_account py_near.Account.State.add_keys py_near.Account.State.add_key public_key_of
    py_near.Transactions.take
new_account_calls-AllEnd_example =
    new_account_calls-AllEnd prim net "alice.near" (bytes key ∷ []) (address "http://a") made [] []
      (pay ∷ pay ∷ []) (key, [], refl) refl

secret-ne-password : ◌≢◌ {A = String} "secret" "password"
unfolding str_eq
secret-ne-password h = let t = (str_eq_iff "secret" "password").1 h in cc

abbrev unposted : State (recorded net)
unposted = record { account = made; nonces = []; world = ([], []) }

claim_sends_no_password_example :
    let claimed =
      (claim prim
        (recorded net)
        (record { contract_id = "keypom.near" })
        "bob.near"
        "secret"
        unposted).1 in
    ReadsOnly prim net (claim prim net (record { contract_id = "keypom.near" }) "bob.near" "secret")
    × (args : Fields) × let body =
          viewing "keypom.near" "claim" (prim.b64encode (prim.dumps (obj args))) none in
        (lookup "password" args ≡ none)
        × (lookup "secret" args ≡ some (str "secret"))
        × OnlyPosted net [] (λ posted. posted ≡ body) claimed.world
        × ((reachable made.provider ≡ false) ⊎ WasPosted net body [] claimed.world)
claim_sends_no_password_example =
    claim_sends_no_password prim net (record { contract_id = "keypom.near" }) "bob.near" "secret"
      unposted secret-ne-password

-- A state whose block hash is a second old and whose key has a nonce.
abbrev warm : State crowd
warm = record {
  account = record made {
    provider = two_nodes;
    latest_block_hash = some (str "block");
    latest_block_hash_ts = 99_000_000;
  };
  nonces = (key, num 5) ∷ [];
  world = [];
}

abbrev after : State crowd
after = record warm {
  account = record warm.account { free_signers = key ∷ key ∷ [] };
  nonces = (key, num 6) ∷ (key, num 5) ∷ [];
}

-- One call returns the answer of the nodes.
paid :
    sign_and_submit_tx prim crowd "bob.near" pay.actions true false warm
    ≡ some (ok (answered (num 7)), after)
unfolding sign_and_submit_tx py_near.Account.Submit.submit_fresh
    py_near.Account.Chain.update_last_block_hash py_near.Account.Submit.take_signer
    py_near.Account.Submit.submit_with py_near.Account.Submit.next_nonce
    py_near.Account.Submit.is_zero py_near.Account.State.nonce_of py_near.Account.State.same_bytes
    py_near.Account.Submit.increment py_near.Account.Submit.plus_one
    py_near.Account.Submit.submit_signed py_near.Account.Sign.sign_tx
    py_near.Account.Sign.decode_hash py_near.Transactions.calc_trx_hash
    py_near.Transactions.key_bytes public_key_of py_near.Transactions.take
    py_near.Transactions.sign_and_serialize_transaction py_near.Account.Submit.send
    py_near.Provider.Rpc.send_tx py_near.Provider.Rpc.json_rpc
    py_near.Provider.Calls.call_rpc_request py_near.Provider.Address.authorise py_near.Text.has
    py_near.Provider.Client.decode str_eq py_near.Python.contains
    py_near.Provider.Broadcast.broadcast_loop py_near.Provider.Client.finished
    py_near.Provider.Client.request_to py_near.Provider.Rpc.result_of py_near.Json.truthy
    py_near.Provider.Response.get_error_from_response py_near.Python.get_item
paid = refl

base58_filled : WritesHashes prim crowd
unfolding str_eq
base58_filled t = refl

bob_filled : str_eq "bob.near" "" ≡ false
unfolding str_eq
bob_filled = refl

sign_and_submit_tx-Shape_example : Shape true false (answered (num 7))
sign_and_submit_tx-Shape_example =
    sign_and_submit_tx-Shape prim crowd "bob.near" pay.actions true false bob_filled base58_filled
      warm after (answered (num 7)) paid

Runs-Risen_example : Risen prim crowd key 1 4 after
unfolding py_near.Account.State.nonce_of py_near.Account.State.same_bytes
Runs-Risen_example = Runs-Risen prim crowd key (step paid (stop after)) 4 refl

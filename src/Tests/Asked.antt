-- ===== src/Tests/Asked.antt =====
-- Runs of the theorems on what is posted (src/py_near/account.py, src/py_near/providers.py and
-- src/py_near/dapps).
use py_near.Base.{ℕ, ◌≡◌, ap, String, true, false, none, some, [], ◌∷◌, ok, refl}
use py_near.Json.{null, num, str}
use py_near.Provider.Network.{Request}
use py_near.Provider.Client.{rpc_body}
use py_near.Provider.Rpc.{one}
use py_near.Provider.Recorded.{recorded}
use py_near.Transactions.{nil, cons, transfer}
use py_near.Account.State.{State}
use py_near.Account.Submit.{answered, sign_and_submit_tx}
use py_near.Account.Chain.{
  get_balance, fetch_state, get_access_key_or_first, get_access_key_list, view_function,
}
use py_near.Account.Asked.Once.{SubmitsOne, sign_and_submit_tx-SubmitsOne}
use py_near.Account.Asked.Reads.{ReadsByAsking, reads-ReadByAsking}
use py_near.Provider.Questions.Counted.{AtMost}
use py_near.Dapps.Raised.{ended}
use py_near.Dapps.Requests.{Request as Called, send_money, stop, step}
use py_near.Dapps.Requests.Limits.{Performs-AtMost}
use py_near.Tests.Requests.{out}
use py_near.Tests.Fixtures.{key, made, net, crowd, prim, two_nodes}

-- A call that sends its transaction to two nodes.
abbrev warm : State (recorded crowd)
warm = record {
  account = record made {
    provider = two_nodes;
    latest_block_hash = some (str "block");
    latest_block_hash_ts = 99_000_000;
  };
  nonces = (key, num 5) ∷ [];
  world = ([], []);
}

abbrev submitted : String → Request
submitted url = record {
  url = url;
  bearer = some "py-near";
  referer = true;
  body = rpc_body "broadcast_tx_async" (one (str "base64"));
  timeout = some 600;
}

abbrev sent : State (recorded crowd)
sent = record {
  account = record warm.account { free_signers = key ∷ key ∷ [] };
  nonces = (key, num 6) ∷ (key, num 5) ∷ [];
  world = ([], submitted "http://a" ∷ submitted "http://b" ∷ []);
}

first :
    sign_and_submit_tx prim (recorded crowd) "bob.near" (cons (transfer 10) nil) true false warm
    ≡ some (ok (answered (num 7)), sent)
unfolding sign_and_submit_tx py_near.Account.Submit.submit_fresh
    py_near.Account.Chain.update_last_block_hash py_near.Account.Submit.take_signer
    py_near.Account.Submit.submit_with py_near.Account.Submit.next_nonce
    py_near.Account.Submit.is_zero py_near.Account.State.nonce_of py_near.Account.State.same_bytes
    py_near.Account.Submit.increment py_near.Account.Submit.plus_one
    py_near.Account.Submit.submit_signed py_near.Account.Sign.sign_tx
    py_near.Account.Sign.decode_hash py_near.Transactions.calc_trx_hash
    py_near.Transactions.key_bytes py_near.Transactions.public_key_of py_near.Transactions.take
    py_near.Transactions.sign_and_serialize_transaction py_near.Account.Submit.send
    py_near.Provider.Rpc.send_tx py_near.Provider.Rpc.json_rpc
    py_near.Provider.Calls.call_rpc_request py_near.Provider.Address.authorise py_near.Text.has
    py_near.Provider.Client.decode py_near.Base.str_eq py_near.Python.contains
    py_near.Provider.Broadcast.broadcast_loop py_near.Provider.Client.finished
    py_near.Provider.Client.request_to py_near.Provider.Rpc.result_of py_near.Json.truthy
    py_near.Provider.Response.get_error_from_response py_near.Python.get_item
    py_near.Provider.Recorded.requests
first = refl

sign_and_submit_tx-SubmitsOne_example :
    SubmitsOne prim crowd [] "bob.near"
      (cons (transfer 10) nil)
      true
      false
      (ok (answered (num 7)), sent)
sign_and_submit_tx-SubmitsOne_example =
    sign_and_submit_tx-SubmitsOne prim crowd "bob.near" (cons (transfer 10) nil) true false warm
      sent (ok (answered (num 7))) first

-- After a second call with the same key.
abbrev sent_again : State (recorded crowd)
sent_again = record {
  account = record warm.account { free_signers = key ∷ key ∷ key ∷ [] };
  nonces = (key, num 7) ∷ (key, num 6) ∷ (key, num 5) ∷ [];
  world = (
    [],
    submitted "http://a" ∷ submitted "http://b" ∷ submitted "http://a" ∷ submitted "http://b" ∷ [],
  );
}

second :
    sign_and_submit_tx prim (recorded crowd) "bob.near" (cons (transfer 20) nil) true false sent
    ≡ some (ok (answered (num 7)), sent_again)
unfolding sign_and_submit_tx py_near.Account.Submit.submit_fresh
    py_near.Account.Chain.update_last_block_hash py_near.Account.Submit.take_signer
    py_near.Account.Submit.submit_with py_near.Account.Submit.next_nonce
    py_near.Account.Submit.is_zero py_near.Account.State.nonce_of py_near.Account.State.same_bytes
    py_near.Account.Submit.increment py_near.Account.Submit.plus_one
    py_near.Account.Submit.submit_signed py_near.Account.Sign.sign_tx
    py_near.Account.Sign.decode_hash py_near.Transactions.calc_trx_hash
    py_near.Transactions.key_bytes py_near.Transactions.public_key_of py_near.Transactions.take
    py_near.Transactions.sign_and_serialize_transaction py_near.Account.Submit.send
    py_near.Provider.Rpc.send_tx py_near.Provider.Rpc.json_rpc
    py_near.Provider.Calls.call_rpc_request py_near.Provider.Address.authorise py_near.Text.has
    py_near.Provider.Client.decode py_near.Base.str_eq py_near.Python.contains
    py_near.Provider.Broadcast.broadcast_loop py_near.Provider.Client.finished
    py_near.Provider.Client.request_to py_near.Provider.Rpc.result_of py_near.Json.truthy
    py_near.Provider.Response.get_error_from_response py_near.Python.get_item
    py_near.Provider.Recorded.requests
second = refl

abbrev pay : ℕ → Called prim (recorded crowd) out
pay amount = send_money "bob.near" amount true false

Performs-AtMost_example : AtMost crowd 2 warm.world sent_again.world
unfolding py_near.Account.Calls.send_money py_near.Account.Calls.submit
    py_near.Transactions.create_transfer_action
Performs-AtMost_example = Performs-AtMost prim crowd out (
    step {q = pay 10} (ap (ended (recorded crowd)) first)
      (step {q = pay 20} (ap (ended (recorded crowd)) second) (stop sent_again)))

reads-ReadByAsking_example :
    ReadsByAsking prim net (get_balance prim (recorded net) none)
    × ReadsByAsking prim net (fetch_state prim (recorded net))
    × ReadsByAsking prim net (get_access_key_or_first prim (recorded net) none)
    × ReadsByAsking prim net (get_access_key_list prim (recorded net) none)
    × ReadsByAsking prim net
        (view_function prim (recorded net) "ft.near" "ft_balance_of" null none none)
reads-ReadByAsking_example =
    reads-ReadByAsking prim net none none "ft.near" "ft_balance_of" null none none

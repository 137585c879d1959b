-- ===== src/Tests/Delegating.antt =====
-- A run of `create_delegate_action` of src/py_near/account.py: the nodes tell the nonce of the key,
-- and twice the status, since the block hash is too old.
use py_near.Base.{none, some, [], ◌∷◌, refl, ap}
use py_near.Json.{num, str}
use py_near.Provider.Network.{replied}
use py_near.Transactions.{NearActions, nil, cons, transfer, Primitives, public_key_of, take}
use py_near.Account.State.{State}
use py_near.Account.Delegate.{DelegateActionModel, create_delegate_action, delegating_key}
use py_near.Account.Delegate.Created.{Created, create_delegate_action-Created}
use py_near.Tests.Fixtures.{key, made, net, two_nodes}
use py_near.Tests.Fixtures
use py_near.Tests.Encoding.{written, read_from, read_from-written}

abbrev prim : Primitives
prim = record (Fixtures.prim) { b58decode = λ s. some (read_from 0 s); b58encode = written }

abbrev payment : NearActions
payment = cons (transfer 10) nil

abbrev cold : State net
cold = record {
  account = record made { provider = two_nodes };
  nonces = (key, num 5) ∷ [];
  world = replied 200 "key" ∷ replied 200 "status" ∷ replied 200 "status" ∷ [];
}

abbrev refreshed : State net
refreshed = record cold {
  account = record (cold.account) {
    latest_block_hash = some (str "block");
    latest_block_hash_ts = 100_000_000;
    latest_block_height = num 9;
  };
  world = [];
}

abbrev delegated : DelegateActionModel
delegated = record {
  actions = payment;
  sender_id = "alice.near";
  receiver_id = "bob.near";
  public_key = written key;
  nonce = 8;
  max_block_height = 1009;
}

create_delegate_action-Created_example :
    Created prim net payment "bob.near" none cold delegated refreshed
unfolding create_delegate_action delegating_key public_key_of take
    py_near.Account.Delegate.height_after py_near.Account.Submit.plus_one
    py_near.Account.Chain.get_access_key py_near.Account.Chain.ask_access_key
    py_near.Account.Chain.update_last_block_hash py_near.Account.Chain.refresh
    py_near.Account.Chain.sync_info py_near.Account.Answers.sync_value
    py_near.Provider.Health.get_status py_near.Provider.Queries.get_access_key
    py_near.Provider.Rpc.json_rpc py_near.Provider.Calls.call_rpc_request py_near.Json.truthy
    py_near.Provider.Address.authorise py_near.Text.has py_near.Provider.Client.decode
    py_near.Base.str_eq py_near.Python.contains py_near.Provider.Response.get_error_from_response
    py_near.Python.get_item py_near.Account.Answers.access_key_of
    py_near.Models.Keys.account_access_key py_near.Provider.Health.ask_status
    py_near.Provider.Health.status_result py_near.Python.number_of
create_delegate_action-Created_example =
    create_delegate_action-Created prim net payment "bob.near" none cold delegated refreshed
      (λ bs. ap some (read_from-written bs)) refl

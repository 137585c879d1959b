-- ===== src/Account/Calls.antt =====
-- The calls of src/py_near/account.py that submit a transaction of their own.
use py_near.Base.{ℕ, String, Bool, false, Option, none, some, List, [], Result, ok, err, ◌>>=◌}
use py_near.Json.{Json}
use py_near.Errors.Exception.{Raises}
use py_near.Provider.Network.{Network}
use py_near.Transactions.{
  Bytes, Key, text, words, NearAction, NearActions, nil, cons, DelegateAction, delegate, Primitives,
  key_bytes, create_create_account_action, create_full_access_key_action,
  create_function_call_access_key_action, create_delete_access_key_action, create_signed_delegate,
  create_transfer_action, create_staking_action, create_deploy_contract_action,
  create_function_call_action,
}
use py_near.Account.State.{State}
use py_near.Account.Delegate.{Delegating, as_near}
use py_near.Account.Submit.{Sent, Failure, plain, sign_and_submit_tx}

-- `sender_id` of a delegate action.
unfoldable pub sender_of : DelegateAction → String
sender_of (delegate sender_id receiver_id actions nonce max_block_height public_key) = sender_id

module _ (prim : Primitives) (net : Network) where
  abbrev pub Call : Type 0
  Call = State net → Option (Result Failure Sent × State net)

  -- The actions are made first: an exception there ends the call.
  unfoldable pub submit : String → Raises NearActions → Bool → Bool → Call
  submit receiver_id (err e) nowait included s = some (plain prim net (err e, s))
  submit receiver_id (ok actions) nowait included s =
      sign_and_submit_tx prim net receiver_id actions nowait included s

  -- One action, which may not be made.
  abbrev pub only : Raises NearAction → Raises NearActions
  only (err e) = err e
  only (ok action) = ok (cons action nil)

  unfoldable pub send_money : String → ℕ → Bool → Bool → Call
  send_money account_id amount nowait included =
      submit account_id (ok (cons (create_transfer_action prim amount) nil)) nowait included

  unfoldable pub function_call : String → String → Json → ℕ → ℕ → Bool → Bool → Call
  function_call contract_id method_name args gas amount nowait included =
      submit contract_id
        (ok (cons (create_function_call_action prim method_name (prim.dumps args) gas amount) nil))
        nowait included

  -- The second of the three actions may not be made.
  abbrev pub opening : ℕ → Raises NearAction → Raises NearActions
  opening initial_balance (err e) = err e
  opening initial_balance (ok action) = ok (
      cons (create_create_account_action prim)
        (cons action (cons (create_transfer_action prim initial_balance) nil)))

  unfoldable pub create_account : String → Key → ℕ → Bool → Call
  create_account account_id public_key initial_balance nowait =
      submit account_id (opening initial_balance (create_full_access_key_action prim public_key))
        nowait false

  unfoldable pub add_public_key : Key → String → Option (List String) → ℕ → Bool → Call
  add_public_key public_key receiver_id method_names allowance nowait s =
      submit s.account.account_id
        (only (
          create_function_call_access_key_action prim public_key allowance receiver_id
            (elim method_names [ none ↦ [] | some names ↦ names ])))
        nowait false s

  unfoldable pub add_full_access_public_key : Key → Bool → Call
  add_full_access_public_key public_key nowait s =
      submit s.account.account_id (only (create_full_access_key_action prim public_key)) nowait
        false s

  unfoldable pub delete_public_key : Key → Bool → Call
  delete_public_key public_key nowait s =
      submit s.account.account_id (only (create_delete_access_key_action prim public_key)) nowait
        false s

  -- `call_delegate_transaction` from the delegate action and the signature as bytes on.
  abbrev pub submit_delegated : Raises (DelegateAction × Bytes) → Bool → Bool → Call
  submit_delegated (err e) nowait included s = some (plain prim net (err e, s))
  submit_delegated (ok (delegate_action, signature)) nowait included s =
      submit (sender_of delegate_action)
        (ok (cons (create_signed_delegate prim delegate_action signature) nil)) nowait included s

  unfoldable pub call_delegate_transaction : Delegating → Key → Bool → Bool → Call
  unfolding as_near
  call_delegate_transaction delegate_action signature nowait included =
      submit_delegated
        (do
          signature_bytes ← key_bytes prim signature
          action ← as_near prim delegate_action
          ok (action, signature_bytes))
        nowait included

  unfoldable pub deploy_contract : Bytes → Bool → Call
  deploy_contract contract_code nowait s =
      submit s.account.account_id (ok (cons (create_deploy_contract_action prim contract_code) nil))
        nowait false s

  -- `create_staking_action(public_key, amount)`: its parameters are the amount and the key.
  unfoldable pub stake : String → String → Bool → Call
  stake public_key amount nowait s =
      submit s.account.account_id
        (only (create_staking_action prim (words public_key) (text amount))) nowait false s

-- ===== src/Dapps/Requests/Submitted.antt =====
-- How many transactions a call of src/py_near/account.py or of the clients of src/py_near/dapps
-- submits.
use py_near.Base.{
  ℕ, ◌+◌, String, Bool, false, Option, none, some, Result, ok, err, ◌≡◌, refl, inl, inr, arith,
}
use py_near.Json.{Json}
use py_near.Errors.Exception.{Raises}
use py_near.Provider.Network.{Network}
use py_near.Provider.Recorded.{recorded}
use py_near.Provider.Questions.Counted.{
  AtMost, AtMost-none, AtMost-asked, AtMost-one, AtMost-le, AtMost-trans,
}
use py_near.Transactions.{Bytes, DelegateAction, NearActions, Primitives}
use py_near.Account.State.{State}
use py_near.Account.Submit.{Sent, Failure, sign_and_submit_tx}
use py_near.Account.Asked.Once.{SubmitsOne, sign_and_submit_tx-SubmitsOne}
use py_near.Account.Calls.{submit, submit_delegated, sender_of}
use py_near.Account.Calls
use py_near.Dapps.Raised.{Raised, Ending, ClientCall, caught, ended}
use py_near.Dapps.Views.{Contract, staking_contract}
use py_near.Dapps.Ft.{storage_deposit, then_call}
use py_near.Dapps.Staking.{call_on, staking_call}

module _ (prim : Primitives) (net : Network) where
  -- A call that started in a state submits at most so many transactions until it ends.
  abbrev pub Within :
      {F : Type 0}
      → ℕ
      → State (recorded net)
      → Option (Result F Sent × State (recorded net))
      → Type 0
  Within n s none = Unit
  Within n s (some (r, s')) = AtMost net n s.world s'.world

  by_end :
      {F : Type 0} (n : ℕ) (s : State (recorded net))
      (o : Option (Result F Sent × State (recorded net)))
      → ((r : Result F Sent) (s' : State (recorded net))
          → o ≡ some (r, s')
          → AtMost net n s.world s'.world)
      → Within n s o
  by_end n s none h = tt
  by_end n s (some (r, s')) h = h r s' refl

  SubmitsOne-AtMost :
      (receiver_id : String) (actions : NearActions) (nowait included : Bool)
      (s s' : State (recorded net)) (r : Result Failure Sent)
      → SubmitsOne prim net s.world.1 receiver_id actions nowait included (r, s')
      → AtMost net 1 s.world s'.world
  SubmitsOne-AtMost receiver_id actions nowait included s s' r (inl (asked, _)) =
      AtMost-asked net 1 s.world s'.world asked
  SubmitsOne-AtMost receiver_id actions nowait included s s' r
        (inr (pk, nonce, trx_hash, tx, held, signed, posted, submitted, told)) =
      AtMost-one net nowait included tx s.world s'.world posted

  pub submit-Within :
      (receiver_id : String) (actions : Raises NearActions) (nowait included : Bool)
      (s : State (recorded net))
      → Within 1 s (submit prim (recorded net) receiver_id actions nowait included s)
  unfolding submit
  submit-Within receiver_id (err e) nowait included s = AtMost-none net 1 s.world
  submit-Within receiver_id (ok actions) nowait included s =
      by_end 1 s (sign_and_submit_tx prim (recorded net) receiver_id actions nowait included s)
        (λ r s' e.
          SubmitsOne-AtMost receiver_id actions nowait included s s' r
            (sign_and_submit_tx-SubmitsOne prim net receiver_id actions nowait included s s' r e))

  pub submit_delegated-Within :
      (r : Raises (DelegateAction × Bytes)) (nowait included : Bool) (s : State (recorded net))
      → Within 1 s (submit_delegated prim (recorded net) r nowait included s)
  submit_delegated-Within (err e) nowait included s = AtMost-none net 1 s.world
  submit_delegated-Within (ok (d, signature)) nowait included s =
      submit-Within (sender_of d) _ nowait included s

  pub ended-Within :
      (n : ℕ) (s : State (recorded net)) (o : Option (Result Failure Sent × State (recorded net)))
      → Within n s o
      → Within n s (ended (recorded net) o)
  ended-Within n s none h = tt
  ended-Within n s (some (ok sent, s')) h = h
  ended-Within n s (some (err f, s')) h = h

  pub caught-Within :
      (f : Raised → Raised) (n : ℕ) (s : State (recorded net)) (o : Ending (recorded net))
      → Within n s o
      → Within n s (caught (recorded net) f o)
  caught-Within f n s none h = tt
  caught-Within f n s (some (ok sent, s')) h = h
  caught-Within f n s (some (err r, s')) h = h

  -- From an earlier state on.
  pub after-Within :
      {F : Type 0} (m n : ℕ) (s s1 : State (recorded net))
      (o : Option (Result F Sent × State (recorded net)))
      → AtMost net m s.world s1.world
      → Within n s1 o
      → Within (m + n) s o
  after-Within m n s s1 none h k = tt
  after-Within m n s s1 (some (r, s2)) h k = AtMost-trans net m n s.world s1.world s2.world h k

  pub then_call-Within :
      (m n : ℕ) (s : State (recorded net)) (o : Ending (recorded net))
      (next : ClientCall (recorded net))
      → Within m s o
      → ((s1 : State (recorded net)) → Within n s1 (next s1))
      → Within (m + n) s (then_call prim (recorded net) o next)
  then_call-Within m n s none next h k = tt
  then_call-Within m n s (some (err r, s1)) next h k =
      AtMost-le net m (m + n) s.world s1.world (omega arith) h
  then_call-Within m n s (some (ok sent, s1)) next h k = after-Within m n s s1 (next s1) h (k s1)

  pub function_call-Within :
      (contract_id method_name : String) (args : Json) (gas amount : ℕ) (nowait included : Bool)
      (s : State (recorded net))
      → Within 1 s (
          Calls.function_call prim
            (recorded net)
            contract_id
            method_name
            args
            gas
            amount
            nowait
            included
            s)
  unfolding Calls.function_call
  function_call-Within contract_id method_name args gas amount nowait included s =
      submit-Within contract_id _ nowait included s

  pub storage_deposit-Within :
      (ft : Contract) (account_id : Option String) (amount : ℕ) (s : State (recorded net))
      → Within 1 s (storage_deposit prim (recorded net) ft account_id amount s)
  unfolding storage_deposit
  storage_deposit-Within ft account_id amount s = function_call-Within _ _ _ _ amount false false s

  call_on-Within :
      (contract_id : Raises String) (method : String) (args : Json) (amount : ℕ) (nowait : Bool)
      (s : State (recorded net))
      → Within 1 s (call_on prim (recorded net) contract_id method args amount nowait s)
  call_on-Within (err e) method args amount nowait s = AtMost-none net 1 s.world
  call_on-Within (ok contract_id) method args amount nowait s =
      function_call-Within contract_id method args _ amount nowait false s

  pub staking_call-Within :
      (method : String) (args : Json) (amount : ℕ) (nowait : Bool) (s : State (recorded net))
      → Within 1 s (staking_call prim (recorded net) method args amount nowait s)
  unfolding staking_call
  staking_call-Within method args amount nowait s =
      call_on-Within (staking_contract s.account.chain_id) method args amount nowait s

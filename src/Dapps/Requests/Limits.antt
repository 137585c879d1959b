-- ===== src/Dapps/Requests/Limits.antt =====
-- How many transactions the requests of src/py_near/account.py and of the clients of src/py_near/dapps
-- submit, one after another.
use py_near.Base.{
  ℕ, ◌+◌, ◌/◌, String, Bool, true, false, some, none, List, [], ◌∷◌, Result, ok, err, ◌≡◌, ◌∙◌,
  refl, sym, subst, arith, ltb, if◌then◌else◌, Option,
}
use py_near.Base.Method.{continued, pure, lift}
use py_near.Errors.Exception.{Raises}
use py_near.Models.Keys.{ViewFunctionResult}
use py_near.Provider.Network.{Network}
use py_near.Provider.Recorded.{recorded, OnlyAsked}
use py_near.Provider.Questions.Counted.{AtMost, AtMost-none, AtMost-asked, AtMost-le, AtMost-trans}
use py_near.Transactions.{Primitives}
use py_near.Account.State.{State}
use py_near.Account.Submit.{Sent}
use py_near.Account.Chain.{view_function}
use py_near.Json.{Json}
use py_near.Account.Asked.Reads.{view_function-ReadsByAsking}
use py_near.Account.Calls
use py_near.Dapps.Raised.{Raised, Ending, ClientCall}
use py_near.Dapps.Views.{
  FtModel, Contract, model, contract_of, account_args, near, total_of, Outside,
}
use py_near.Dapps.Ft.{account_or_own, storage_balance_of, deposit_below, registered}
use py_near.Dapps.Ft
use py_near.Dapps.Staking
use py_near.Dapps.Requests.Submitted.{
  Within, submit-Within, submit_delegated-Within, ended-Within, caught-Within, after-Within,
  then_call-Within, function_call-Within, storage_deposit-Within, staking_call-Within,
}
use py_near.Dapps.Requests.{
  Request, perform, send_money, function_call, create_account, add_public_key,
  add_full_access_public_key, delete_public_key, call_delegate_transaction, deploy_contract, stake,
  ft_transfer, ft_transfer_call, ft_storage_deposit, staking_transfer, staking_transfer_call,
  staking_stake, staking_unstake, staking_receive_dividends, Performs, stop, step,
}

module _ (prim : Primitives) (net : Network) where
  -- What is made of an answer posts nothing.
  read-world :
      {A B : Type 0} (f : A → B) (r : Raises A × State (recorded net))
      → (continued (λ a. pure (f a)) r).1.world ≡ r.1.world
  read-world f (ok a, s) = refl
  read-world f (err e, s) = refl

  lifted-world :
      {A B : Type 0} (f : A → Raises B) (r : Raises A × State (recorded net))
      → (continued (λ a. lift (f a)) r).1.world ≡ r.1.world
  lifted-world f (ok a, s) = refl
  lifted-world f (err e, s) = refl

  storage_balance_of-asks :
      (ft : Contract) (account_id : Option String) (s : State (recorded net))
      → OnlyAsked net s.world.1 (storage_balance_of prim (recorded net) ft account_id s).1.world
  unfolding storage_balance_of
  storage_balance_of-asks ft account_id s =
      let args : Json = account_args (account_or_own account_id s.account) in
      let viewed =
        view_function prim (recorded net) (contract_of ft) "storage_balance_of" args none none s in
      subst (OnlyAsked net s.world.1)
        (sym (lifted-world total_of _ ∙ read-world (λ (v : ViewFunctionResult). v.result) viewed))
        (view_function-ReadsByAsking prim net (contract_of ft) "storage_balance_of" args none none
          s).1

  deposit_below-Within :
      (ft : FtModel) (receiver_id : String) (next : ClientCall (recorded net))
      (s : State (recorded net)) (r : Raises ℕ × State (recorded net))
      → AtMost net 0 s.world r.1.world
      → ((s1 : State (recorded net)) → Within prim net 1 s1 (next s1))
      → Within prim net 2 s (deposit_below prim (recorded net) ft receiver_id next r)
  deposit_below-Within ft receiver_id next s (err e, s1) h k =
      AtMost-le net 0 2 s.world s1.world (omega arith) h
  deposit_below-Within ft receiver_id next s (ok balance, s1) h k =
      after-Within prim net 0 2 s s1 _ h (
        by_test (ltb balance (near / 500)) _ _
          (then_call-Within prim net 1 1 s1 _ next
            (ended-Within prim net 1 s1 _
              (storage_deposit-Within prim net (model ft) (some receiver_id) (near / 50) s1))
            k)
          (more (next s1) (k s1)))
    where
      more : (o : Ending (recorded net)) → Within prim net 1 s1 o → Within prim net 2 s1 o
      more none h = tt
      more (some (r, s2)) h = AtMost-le net 1 2 s1.world s2.world (omega arith) h

      by_test :
          (b : Bool) (o o' : Ending (recorded net))
          → Within prim net 2 s1 o
          → Within prim net 2 s1 o'
          → Within prim net 2 s1 (if b then o else o')
      by_test true o o' h h' = h
      by_test false o o' h h' = h'

  registered-Within :
      (ft : FtModel) (receiver_id : String) (force_register : Bool)
      (next : ClientCall (recorded net))
      → ((s1 : State (recorded net)) → Within prim net 1 s1 (next s1))
      → (s : State (recorded net))
      → Within prim net
          (if force_register then 2 else 1)
          s
          (registered prim (recorded net) ft receiver_id force_register next s)
  unfolding registered
  registered-Within ft receiver_id false next k s = k s
  registered-Within ft receiver_id true next k s =
      let found = storage_balance_of prim (recorded net) (model ft) (some receiver_id) s in
      deposit_below-Within ft receiver_id next s found
        (AtMost-asked net 0 s.world found.1.world
          (storage_balance_of-asks (model ft) (some receiver_id) s))
        k

module _ (prim : Primitives) (net : Network) (out : Outside) where
  -- One transaction for each request, and two for a transfer that registers the receiver.
  abbrev pub limit : Request prim (recorded net) out → ℕ
  limit (ft_transfer ft r n memo force_register w) = if force_register then 2 else 1
  limit (ft_transfer_call ft r n memo force_register w) = if force_register then 2 else 1
  limit _ = 1

  abbrev pub limits : List (Request prim (recorded net) out) → ℕ
  limits [] = 0
  limits (q ∷ qs) = limit q + limits qs

  perform-Within :
      (q : Request prim (recorded net) out) (s : State (recorded net))
      → Within prim net (limit q) s (perform prim (recorded net) out q s)
  unfolding Calls.send_money Calls.create_account Calls.add_public_key
      Calls.add_full_access_public_key Calls.delete_public_key Calls.call_delegate_transaction
      Calls.deploy_contract Calls.stake Ft.transfer Ft.transfer_call Ft.token_call Staking.transfer
      Staking.transfer_call Staking.stake Staking.unstake Staking.receive_dividends
  perform-Within (send_money a n w i) s =
      ended-Within prim net 1 s _ (submit-Within prim net a _ w i s)
  perform-Within (function_call c m args gas n w i) s =
      ended-Within prim net 1 s _ (function_call-Within prim net c m args gas n w i s)
  perform-Within (create_account a key n w) s =
      ended-Within prim net 1 s _ (submit-Within prim net a _ w false s)
  perform-Within (add_public_key key r names n w) s =
      ended-Within prim net 1 s _ (submit-Within prim net _ _ w false s)
  perform-Within (add_full_access_public_key key w) s =
      ended-Within prim net 1 s _ (submit-Within prim net _ _ w false s)
  perform-Within (delete_public_key key w) s =
      ended-Within prim net 1 s _ (submit-Within prim net _ _ w false s)
  perform-Within (call_delegate_transaction d sig w i) s =
      ended-Within prim net 1 s _ (submit_delegated-Within prim net _ w i s)
  perform-Within (deploy_contract code w) s =
      ended-Within prim net 1 s _ (submit-Within prim net _ _ w false s)
  perform-Within (stake key n w) s =
      ended-Within prim net 1 s _ (submit-Within prim net _ _ w false s)
  perform-Within (ft_transfer ft r n memo f w) s =
      registered-Within prim net ft r f _
        (λ s1.
          caught-Within prim net _ 1 s1 _
            (ended-Within prim net 1 s1 _ (function_call-Within prim net _ _ _ _ _ w false s1)))
        s
  perform-Within (ft_transfer_call ft r n memo f w) s =
      registered-Within prim net ft r f _
        (λ s1. ended-Within prim net 1 s1 _ (function_call-Within prim net _ _ _ _ _ w false s1)) s
  perform-Within (ft_storage_deposit ft a n) s =
      ended-Within prim net 1 s _ (storage_deposit-Within prim net ft a n s)
  perform-Within (staking_transfer r n memo w) s =
      caught-Within prim net _ 1 s _
        (ended-Within prim net 1 s _ (staking_call-Within prim net _ _ _ w s))
  perform-Within (staking_transfer_call r n memo w) s =
      ended-Within prim net 1 s _ (staking_call-Within prim net _ _ _ w s)
  perform-Within (staking_stake n w) s =
      ended-Within prim net 1 s _ (staking_call-Within prim net _ _ n w s)
  perform-Within (staking_unstake n w) s =
      caught-Within prim net _ 1 s _
        (ended-Within prim net 1 s _ (staking_call-Within prim net _ _ _ w s))
  perform-Within (staking_receive_dividends w) s =
      ended-Within prim net 1 s _ (staking_call-Within prim net _ _ _ w s)

  -- Requests one after another, whatever they return or raise, submit at most one transaction each,
  -- and two where a transfer registers the receiver; nothing else is posted but questions and looks
  -- for a transaction.
  pub Performs-AtMost :
      {qs : List (Request prim (recorded net) out)} {s s' : State (recorded net)}
      {rs : List (Result Raised Sent)}
      → Performs prim (recorded net) out qs s rs s'
      → AtMost net (limits qs) s.world s'.world
  Performs-AtMost (stop s) = AtMost-none net 0 s.world
  Performs-AtMost (step {q} {qs} {s} {s'} {s2} {r} {rs} e rest) =
      AtMost-trans net (limit q) (limits qs) s.world s'.world s2.world
        (subst (Within prim net (limit q) s) e (perform-Within q s)) (Performs-AtMost rest)

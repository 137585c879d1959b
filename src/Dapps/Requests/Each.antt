-- ===== src/Dapps/Requests/Each.antt =====
-- What the calls of an account of src/py_near/account.py and of the clients of src/py_near/dapps leave
-- ready for the next call.
use py_near.Base.{
  ℕ, String, Bool, true, false, Option, none, some, All, Memᴰ, Result, ok, err, ◌≡◌, refl, sym, ap,
  ◌∙◌, subst, if◌then◌else◌,
}
use py_near.Base.Method.{continued, pure, lift}
use py_near.Models.Keys.{ViewFunctionResult}
use py_near.Json.{Json}
use py_near.Errors.Exception.{Raises}
use py_near.Provider.Network.{Network}
use py_near.Transactions.{Bytes, DelegateAction, NearActions, Primitives}
use py_near.Account.State.{State}
use py_near.Account.Kept.Reads.{view_function-ReadsOnly}
use py_near.Account.History.{identity}
use py_near.Account.History.Ready.{Filled, Ready, called}
use py_near.Account.Submit.{Sent, Failure}
use py_near.Account.Calls.{Call, submit, submit_delegated, sender_of}
use py_near.Account.Calls
use py_near.Dapps.Raised.{Raised, failed, Ending, ClientCall, caught, ended}
use py_near.Dapps.Views.{FtModel, Contract, model, total_of, staking_contract}
use py_near.Dapps.Ft.{storage_balance_of, storage_deposit, then_call, deposit_below, registered}
use py_near.Dapps.Staking.{call_on, staking_call}

module _ (prim : Primitives) (net : Network) where
  -- The end of a call from a state in which calls can start: there is one, calls can start again,
  -- and what a call only reads is as it was.
  abbrev pub EndsReady : {F : Type 0} → State net → Option (Result F Sent × State net) → Type 0
  EndsReady {F} s o =
      (r : Result F Sent) × (s' : State net) × (o ≡ some (r, s'))
      × Ready prim net s'
      × (identity s'.account ≡ identity s.account)

  abbrev pub KeepsReady : {F : Type 0} → (State net → Option (Result F Sent × State net)) → Type 0
  KeepsReady call = (s : State net) → Ready prim net s → EndsReady s (call s)

  same_account : (s s' : State net) → s'.account ≡ s.account → Ready prim net s → Ready prim net s'
  same_account s s' e ready = record {
    has_signer = subst (λ a. Filled a.signers) (sym e) ready.has_signer;
    has_free = subst (λ a. Filled a.free_signers) (sym e) ready.has_free;
    of_signers = subst (λ a. All (λ k. Memᴰ k a.signers) a.free_signers) (sym e) ready.of_signers;
  }

  pub submit-KeepsReady :
      (receiver_id : String) (actions : Raises NearActions) (nowait included : Bool)
      → KeepsReady (submit prim net receiver_id actions nowait included)
  unfolding submit
  submit-KeepsReady receiver_id (err e) nowait included s ready = (_, s, refl, ready, refl)
  submit-KeepsReady receiver_id (ok actions) nowait included s ready =
      let (r, s', ended, ready', same, _) =
        called prim net
          (record {
            receiver_id = receiver_id;
            actions = actions;
            nowait = nowait;
            included = included;
          })
          s ready in
      (r, s', ended, ready', same)

  pub submit_delegated-KeepsReady :
      (r : Raises (DelegateAction × Bytes)) (nowait included : Bool)
      → KeepsReady (submit_delegated prim net r nowait included)
  submit_delegated-KeepsReady (err e) nowait included s ready = (_, s, refl, ready, refl)
  submit_delegated-KeepsReady (ok (d, signature)) nowait included s ready =
      submit-KeepsReady (sender_of d) _ nowait included s ready

  after_end :
      {F : Type 0} (s s1 : State net) (r : Result F Sent)
      → EndsReady s (some (r, s1))
      → Ready prim net s1 × (identity s1.account ≡ identity s.account)
  after_end s s1 r (r', s', e, ready, same) =
      let q : s' ≡ s1 = cc in
      (subst (Ready prim net) q ready, ap (λ (t : State net). identity t.account) (sym q) ∙ same)

  -- A call that ends in the same state, whatever it returns or raises.
  ends_alike :
      {F G : Type 0} (s s1 : State net) (r : Result F Sent) (r' : Result G Sent)
      → EndsReady s (some (r, s1))
      → EndsReady s (some (r', s1))
  ends_alike s s1 r r' h = let (ready, same) = after_end s s1 r h in (r', s1, refl, ready, same)

  ended-EndsReady :
      (s : State net) (o : Option (Result Failure Sent × State net))
      → EndsReady s o
      → EndsReady s (ended net o)
  ended-EndsReady s none (r, s', e, _, _) = cc
  ended-EndsReady s (some (ok sent, s1)) h = ends_alike s s1 (ok sent) (ok sent) h
  ended-EndsReady s (some (err f, s1)) h = ends_alike s s1 (err f) (err (failed f)) h

  pub ended-KeepsReady :
      (call : Call prim net) → KeepsReady call → KeepsReady (λ s. ended net (call s))
  ended-KeepsReady call k s ready = ended-EndsReady s (call s) (k s ready)

  pub caught-EndsReady :
      (f : Raised → Raised) (s : State net) (o : Ending net)
      → EndsReady s o
      → EndsReady s (caught net f o)
  caught-EndsReady f s none (r, s', e, _, _) = cc
  caught-EndsReady f s (some (ok sent, s1)) h = h
  caught-EndsReady f s (some (err r, s1)) h = ends_alike s s1 (err r) (err (f r)) h

  then_call-EndsReady :
      (s : State net) (o : Ending net) (next : ClientCall net)
      → EndsReady s o
      → KeepsReady next
      → EndsReady s (then_call prim net o next)
  then_call-EndsReady s none next (r, s', e, _, _) k = cc
  then_call-EndsReady s (some (err f, s1)) next h k = h
  then_call-EndsReady s (some (ok sent, s1)) next h k =
      let (ready, same) = after_end s s1 (ok sent) h in
      let (r, s2, ended, ready2, same2) = k s1 ready in (r, s2, ended, ready2, same2 ∙ same)

  pub function_call-KeepsReady :
      (contract_id method_name : String) (args : Json) (gas amount : ℕ) (nowait included : Bool)
      → KeepsReady
          (Calls.function_call prim net contract_id method_name args gas amount nowait included)
  unfolding Calls.function_call
  function_call-KeepsReady contract_id method_name args gas amount nowait included =
      submit-KeepsReady contract_id _ nowait included

  pub storage_deposit-KeepsReady :
      (ft : Contract) (account_id : Option String) (amount : ℕ)
      → KeepsReady (storage_deposit prim net ft account_id amount)
  unfolding storage_deposit
  storage_deposit-KeepsReady ft account_id amount s =
      function_call-KeepsReady _ _ _ _ amount false false s

  -- What is made of an answer leaves the account as it is.
  read-account :
      {A B : Type 0} (f : A → B) (r : Raises A × State net)
      → (continued (λ a. pure (f a)) r).1.account ≡ r.1.account
  read-account f (ok a, s) = refl
  read-account f (err e, s) = refl

  lifted-account :
      {A B : Type 0} (f : A → Raises B) (r : Raises A × State net)
      → (continued (λ a. lift (f a)) r).1.account ≡ r.1.account
  lifted-account f (ok a, s) = refl
  lifted-account f (err e, s) = refl

  storage_balance_of-account :
      (ft : Contract) (account_id : Option String) (s : State net)
      → (storage_balance_of prim net ft account_id s).1.account ≡ s.account
  unfolding storage_balance_of
  storage_balance_of-account ft account_id s =
      lifted-account total_of _
      ∙ read-account (λ (v : ViewFunctionResult). v.result) _
      ∙ ap (λ m. m.0) (view_function-ReadsOnly prim net _ _ _ _ _ s)

  deposit_below-EndsReady :
      (ft : FtModel) (receiver_id : String) (next : ClientCall net) (s : State net)
      → (r : Raises ℕ × State net) → r.1.account ≡ s.account
      → Ready prim net s
      → KeepsReady next
      → EndsReady s (deposit_below prim net ft receiver_id next r)
  deposit_below-EndsReady ft receiver_id next s (err e, s1) same ready k =
      (_, s1, refl, same_account s s1 same ready, ap identity same)
  deposit_below-EndsReady ft receiver_id next s (ok balance, s1) same ready k =
      by_test _
        (then_call-EndsReady s1 _ next
          (ended-EndsReady s1 _ (storage_deposit-KeepsReady (model ft) _ _ s1 ready1)) k)
        (k s1 ready1)
    where
      ready1 : Ready prim net s1
      ready1 = same_account s s1 same ready

      by_test :
          (b : Bool) {o o' : Ending net}
          → EndsReady s1 o
          → EndsReady s1 o'
          → EndsReady s (if b then o else o')
      by_test true (r, s2, e, ready2, same2) h = (r, s2, e, ready2, same2 ∙ ap identity same)
      by_test false h (r, s2, e, ready2, same2) = (r, s2, e, ready2, same2 ∙ ap identity same)

  pub registered-KeepsReady :
      (ft : FtModel) (receiver_id : String) (force_register : Bool) (next : ClientCall net)
      → KeepsReady next
      → KeepsReady (registered prim net ft receiver_id force_register next)
  unfolding registered
  registered-KeepsReady ft receiver_id false next k s ready = k s ready
  registered-KeepsReady ft receiver_id true next k s ready =
      deposit_below-EndsReady ft receiver_id next s
        (storage_balance_of prim net (model ft) (some receiver_id) s)
        (storage_balance_of-account (model ft) (some receiver_id) s) ready k

  call_on-KeepsReady :
      (contract_id : Raises String) (method : String) (args : Json) (amount : ℕ) (nowait : Bool)
      → KeepsReady (call_on prim net contract_id method args amount nowait)
  call_on-KeepsReady (err e) method args amount nowait s ready = (_, s, refl, ready, refl)
  call_on-KeepsReady (ok contract_id) method args amount nowait s ready =
      function_call-KeepsReady contract_id method args _ amount nowait false s ready

  pub staking_call-KeepsReady :
      (method : String) (args : Json) (amount : ℕ) (nowait : Bool)
      → KeepsReady (staking_call prim net method args amount nowait)
  unfolding staking_call
  staking_call-KeepsReady method args amount nowait s =
      call_on-KeepsReady (staking_contract s.account.chain_id) method args amount nowait s

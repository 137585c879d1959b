-- ===== src/Dapps/Requests.antt =====
-- All calls that submit transactions through an account of src/py_near/account.py and the clients of
-- src/py_near/dapps, one after another.
pub mod Each
pub mod Failures
pub mod Submitted
pub mod Limits
use py_near.Base.{ℕ, String, Bool, false, Option, some, List, [], ◌∷◌, Result, ok, ◌≡◌, refl, ◌∙◌}
use py_near.Json.{Json}
use py_near.Provider.Network.{Network}
use py_near.Provider.Client.{RpcAddr}
use py_near.Transactions.{Bytes, Key, Primitives}
use py_near.Account.Delegate.{Delegating}
use py_near.Account.State.{Account, State, new_account}
use py_near.Account.History.{identity}
use py_near.Account.History.Ready.{Filled, Ready, new_account-Ready}
use py_near.Account.Submit.{Sent}
use py_near.Account.Calls
use py_near.Dapps.Requests.Each.{
  KeepsReady, submit_delegated-KeepsReady, ended-KeepsReady, caught-EndsReady, submit-KeepsReady,
  function_call-KeepsReady, storage_deposit-KeepsReady, registered-KeepsReady,
  staking_call-KeepsReady,
}
use py_near.Dapps.Raised.{Raised, ClientCall, ended}
use py_near.Dapps.Views.{FtModel, Contract, Outside}
use py_near.Dapps.Ft.{storage_deposit}
use py_near.Dapps.Ft
use py_near.Dapps.Staking

module _ (prim : Primitives) (net : Network) (out : Outside) where
  open out use {Float}

  -- The calls of an account, of its client for fungible tokens and of its client for staking.
  pub data Request : Type 0 where
    send_money : String → ℕ → Bool → Bool → Request
    function_call : String → String → Json → ℕ → ℕ → Bool → Bool → Request
    create_account : String → Key → ℕ → Bool → Request
    add_public_key : Key → String → Option (List String) → ℕ → Bool → Request
    add_full_access_public_key : Key → Bool → Request
    delete_public_key : Key → Bool → Request
    call_delegate_transaction : Delegating → Key → Bool → Bool → Request
    deploy_contract : Bytes → Bool → Request
    stake : String → String → Bool → Request
    ft_transfer : FtModel → String → Float → String → Bool → Bool → Request
    ft_transfer_call : FtModel → String → Float → String → Bool → Bool → Request
    ft_storage_deposit : Contract → Option String → ℕ → Request
    staking_transfer : String → Float → String → Bool → Request
    staking_transfer_call : String → ℕ → String → Bool → Request
    staking_stake : ℕ → Bool → Request
    staking_unstake : ℕ → Bool → Request
    staking_receive_dividends : Bool → Request

  abbrev pub perform : Request → ClientCall net
  perform (send_money a n w i) s = ended net (Calls.send_money prim net a n w i s)
  perform (function_call c m args gas n w i) s =
      ended net (Calls.function_call prim net c m args gas n w i s)
  perform (create_account a key n w) s = ended net (Calls.create_account prim net a key n w s)
  perform (add_public_key key r names n w) s =
      ended net (Calls.add_public_key prim net key r names n w s)
  perform (add_full_access_public_key key w) s =
      ended net (Calls.add_full_access_public_key prim net key w s)
  perform (delete_public_key key w) s = ended net (Calls.delete_public_key prim net key w s)
  perform (call_delegate_transaction d sig w i) s =
      ended net (Calls.call_delegate_transaction prim net d sig w i s)
  perform (deploy_contract code w) s = ended net (Calls.deploy_contract prim net code w s)
  perform (stake key n w) s = ended net (Calls.stake prim net key n w s)
  perform (ft_transfer ft r n memo f w) s = Ft.transfer prim net out ft r n memo f w s
  perform (ft_transfer_call ft r n memo f w) s = Ft.transfer_call prim net out ft r n memo f w s
  perform (ft_storage_deposit ft a n) s = ended net (storage_deposit prim net ft a n s)
  perform (staking_transfer r n memo w) s = Staking.transfer prim net out r n memo w s
  perform (staking_transfer_call r n memo w) s =
      ended net (Staking.transfer_call prim net r n memo w s)
  perform (staking_stake n w) s = ended net (Staking.stake prim net n w s)
  perform (staking_unstake n w) s = Staking.unstake prim net n w s
  perform (staking_receive_dividends w) s = ended net (Staking.receive_dividends prim net w s)

  perform-KeepsReady : (q : Request) → KeepsReady prim net (perform q)
  unfolding Calls.send_money Calls.create_account Calls.add_public_key
      Calls.add_full_access_public_key Calls.delete_public_key Calls.call_delegate_transaction
      Calls.deploy_contract Calls.stake Ft.transfer Ft.transfer_call Ft.token_call Staking.transfer
      Staking.transfer_call Staking.stake Staking.unstake Staking.receive_dividends
  perform-KeepsReady (send_money a n w i) s =
      ended-KeepsReady prim net _ (submit-KeepsReady prim net a _ w i) s
  perform-KeepsReady (function_call c m args gas n w i) s =
      ended-KeepsReady prim net _ (function_call-KeepsReady prim net c m args gas n w i) s
  perform-KeepsReady (create_account a key n w) s =
      ended-KeepsReady prim net _ (submit-KeepsReady prim net a _ w false) s
  perform-KeepsReady (add_public_key key r names n w) s =
      ended-KeepsReady prim net _ (submit-KeepsReady prim net _ _ w false) s
  perform-KeepsReady (add_full_access_public_key key w) s =
      ended-KeepsReady prim net _ (submit-KeepsReady prim net _ _ w false) s
  perform-KeepsReady (delete_public_key key w) s =
      ended-KeepsReady prim net _ (submit-KeepsReady prim net _ _ w false) s
  perform-KeepsReady (call_delegate_transaction d sig w i) s =
      ended-KeepsReady prim net _ (submit_delegated-KeepsReady prim net _ w i) s
  perform-KeepsReady (deploy_contract code w) s =
      ended-KeepsReady prim net _ (submit-KeepsReady prim net _ _ w false) s
  perform-KeepsReady (stake key n w) s =
      ended-KeepsReady prim net _ (submit-KeepsReady prim net _ _ w false) s
  perform-KeepsReady (ft_transfer ft r n memo f w) s =
      registered-KeepsReady prim net ft r f _
        (λ s ready.
          caught-EndsReady prim net _ s _
            (ended-KeepsReady prim net _ (function_call-KeepsReady prim net _ _ _ _ _ _ _) s ready))
        s
  perform-KeepsReady (ft_transfer_call ft r n memo f w) s =
      registered-KeepsReady prim net ft r f _
        (ended-KeepsReady prim net _ (function_call-KeepsReady prim net _ _ _ _ _ _ _)) s
  perform-KeepsReady (ft_storage_deposit ft a n) s =
      ended-KeepsReady prim net _ (storage_deposit-KeepsReady prim net ft a n) s
  perform-KeepsReady (staking_transfer r n memo w) s = (λ ready.
      caught-EndsReady prim net _ s _
        (ended-KeepsReady prim net _ (staking_call-KeepsReady prim net _ _ _ w) s ready))
  perform-KeepsReady (staking_transfer_call r n memo w) s =
      ended-KeepsReady prim net _ (staking_call-KeepsReady prim net _ _ _ w) s
  perform-KeepsReady (staking_stake n w) s =
      ended-KeepsReady prim net _ (staking_call-KeepsReady prim net _ _ n w) s
  perform-KeepsReady (staking_unstake n w) s = (λ ready.
      caught-EndsReady prim net _ s _
        (ended-KeepsReady prim net _ (staking_call-KeepsReady prim net _ _ _ w) s ready))
  perform-KeepsReady (staking_receive_dividends w) s =
      ended-KeepsReady prim net _ (staking_call-KeepsReady prim net _ _ _ w) s

  -- Requests one after another, with what they return or raise.
  pub data Performs
      : List Request → State net → List (Result Raised Sent) → State net → Type 0 where
    stop : (s : State net) → Performs [] s [] s
    step :
        {q : Request} {qs : List Request} {s s' s2 : State net}
        → {r : Result Raised Sent} {rs : List (Result Raised Sent)} → perform q s ≡ some (r, s')
        → Performs qs s' rs s2
        → Performs (q ∷ qs) s (r ∷ rs) s2

  abbrev pub AllPerformed : List Request → State net → Type 0
  AllPerformed qs s =
      (rs : List (Result Raised Sent)) × (s' : State net) × Performs qs s rs s'
      × Ready prim net s'
      × (identity s'.account ≡ identity s.account)

  Ready-AllPerformed : (qs : List Request) (s : State net) → Ready prim net s → AllPerformed qs s
  Ready-AllPerformed [] s ready = ([], s, stop s, ready, refl)
  Ready-AllPerformed (q ∷ qs) s ready =
      let (r, s', ended, ready', same) = perform-KeepsReady q s ready in
      let (rs, s2, performed, ready2, same2) = Ready-AllPerformed qs s' ready' in
      (r ∷ rs, s2, step ended performed, ready2, same2 ∙ same)

  -- An account that was made with some key performs any requests, its own and those of its clients
  -- for fungible tokens and for staking, one after another: each of them ends, whatever it returns
  -- or raises. After them a key is free, every free key is one of the signers, and the keys, the
  -- name, the chain and the provider are as they were.
  pub new_account-AllPerformed :
      (account_id : String) (keys : List Key) (addr : RpcAddr) (a : Account)
      → (nonces : List (Bytes × Json)) (w : net.World) (qs : List Request) → Filled a.signers
      → new_account prim account_id keys addr ≡ ok a
      → AllPerformed qs (record { account = a; nonces = nonces; world = w })
  new_account-AllPerformed account_id keys addr a nonces w qs filled made =
      Ready-AllPerformed qs _
        (new_account-Ready prim net account_id keys addr a nonces w filled made)

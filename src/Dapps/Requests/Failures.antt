-- ===== src/Dapps/Requests/Failures.antt =====
-- What the requests of src/py_near/account.py and of the clients of src/py_near/dapps raise.
use py_near.Base.{
  ℕ, ◌/◌, String, Bool, true, false, Option, none, some, Result, ok, err, ◌≡◌, if◌then◌else◌,
}
use py_near.Errors.Exception.{Raises}
use py_near.Errors.Kinds.{KindError}
use py_near.Provider.Network.{Network}
use py_near.Transactions.{Primitives}
use py_near.Account.State.{State}
use py_near.Account.Submit.{Sent, Failure, plain}
use py_near.Dapps.Raised.{
  Raised, failed, Ending, ClientCall, caught, ended, except_function_call_error,
}
use py_near.Dapps.Views.{near, FtModel, model, Outside}
use py_near.Dapps.Ft.{storage_deposit, storage_balance_of, then_call, deposit_below, registered}
use py_near.Dapps.Ft
use py_near.Dapps.Staking
use py_near.Dapps.Requests.{
  Request, perform, send_money, function_call, create_account, add_public_key,
  add_full_access_public_key, delete_public_key, call_delegate_transaction, deploy_contract, stake,
  ft_transfer, ft_transfer_call, ft_storage_deposit, staking_transfer, staking_transfer_call,
  staking_stake, staking_unstake, staking_receive_dividends,
}

module _ (prim : Primitives) (net : Network) where
  -- What is raised is an exception of a call of the account.
  abbrev OnlyFailed : Ending net → Type 0
  OnlyFailed o = (r : Raised) (s : State net) → o ≡ some (err r, s) → (f : Failure) × (r ≡ failed f)

  ended-OnlyFailed : (o : Option (Result Failure Sent × State net)) → OnlyFailed (ended net o)
  ended-OnlyFailed none r s e = cc
  ended-OnlyFailed (some (ok sent, s')) r s e = cc
  ended-OnlyFailed (some (err f, s')) r s e = (f, cc)

  -- An `except FunctionCallError` clause meets none.
  caught-OnlyFailed :
      (body : KindError → Raised) (o : Option (Result Failure Sent × State net))
      → OnlyFailed (caught net (except_function_call_error body) (ended net o))
  caught-OnlyFailed body none r s e = cc
  caught-OnlyFailed body (some (ok sent, s')) r s e = cc
  caught-OnlyFailed body (some (err f, s')) r s e = (f, cc)

  then_call-OnlyFailed :
      (o : Ending net) (next : ClientCall net)
      → OnlyFailed o
      → ((s : State net) → OnlyFailed (next s))
      → OnlyFailed (then_call prim net o next)
  then_call-OnlyFailed none next h k = h
  then_call-OnlyFailed (some (err r, s)) next h k = h
  then_call-OnlyFailed (some (ok sent, s)) next h k = k s

  if-OnlyFailed :
      (b : Bool) {o o' : Ending net}
      → OnlyFailed o
      → OnlyFailed o'
      → OnlyFailed (if b then o else o')
  if-OnlyFailed true h h' = h
  if-OnlyFailed false h h' = h'

  deposit_below-OnlyFailed :
      (ft : FtModel) (receiver_id : String) (next : ClientCall net) (r : Raises ℕ × State net)
      → ((s : State net) → OnlyFailed (next s))
      → OnlyFailed (deposit_below prim net ft receiver_id next r)
  deposit_below-OnlyFailed ft receiver_id next (err e, s) k =
      ended-OnlyFailed (some (plain prim net (err e, s)))
  deposit_below-OnlyFailed ft receiver_id next (ok balance, s) k =
      if-OnlyFailed _
        (then_call-OnlyFailed _ next
          (ended-OnlyFailed (storage_deposit prim net (model ft) (some receiver_id) (near / 50) s))
          k)
        (k s)

  registered-OnlyFailed :
      (ft : FtModel) (receiver_id : String) (force_register : Bool) (next : ClientCall net)
      → ((s : State net) → OnlyFailed (next s))
      → (s : State net) → OnlyFailed (registered prim net ft receiver_id force_register next s)
  unfolding registered
  registered-OnlyFailed ft receiver_id force_register next k s =
      if-OnlyFailed force_register
        (deposit_below-OnlyFailed ft receiver_id next
          (storage_balance_of prim net (model ft) (some receiver_id) s) k)
        (k s)

  module _ (out : Outside) where
    performed-OnlyFailed :
        (q : Request prim net out) (s : State net) → OnlyFailed (perform prim net out q s)
    unfolding Ft.transfer Ft.transfer_call Staking.transfer Staking.unstake
    performed-OnlyFailed (send_money a n w i) s = ended-OnlyFailed _
    performed-OnlyFailed (function_call c m args gas n w i) s = ended-OnlyFailed _
    performed-OnlyFailed (create_account a key n w) s = ended-OnlyFailed _
    performed-OnlyFailed (add_public_key key r names n w) s = ended-OnlyFailed _
    performed-OnlyFailed (add_full_access_public_key key w) s = ended-OnlyFailed _
    performed-OnlyFailed (delete_public_key key w) s = ended-OnlyFailed _
    performed-OnlyFailed (call_delegate_transaction d sig w i) s = ended-OnlyFailed _
    performed-OnlyFailed (deploy_contract code w) s = ended-OnlyFailed _
    performed-OnlyFailed (stake key n w) s = ended-OnlyFailed _
    performed-OnlyFailed (ft_storage_deposit ft a n) s = ended-OnlyFailed _
    performed-OnlyFailed (staking_transfer_call r n memo w) s = ended-OnlyFailed _
    performed-OnlyFailed (staking_stake n w) s = ended-OnlyFailed _
    performed-OnlyFailed (staking_receive_dividends w) s = ended-OnlyFailed _
    performed-OnlyFailed (ft_transfer ft r n memo f w) s =
        registered-OnlyFailed ft r f _ (λ s'. caught-OnlyFailed _ _) s
    performed-OnlyFailed (ft_transfer_call ft r n memo f w) s =
        registered-OnlyFailed ft r f _ (λ s'. ended-OnlyFailed _) s
    performed-OnlyFailed (staking_transfer r n memo w) s = caught-OnlyFailed _ _
    performed-OnlyFailed (staking_unstake n w) s = caught-OnlyFailed _ _

    -- Whatever request raises, it is an exception that a call of the account raises: none of those
    -- that `parse_error` makes of a receipt, and no `NotRegisteredError` or `NotEnoughBalance` of a
    -- client.
    pub perform-raises :
        (q : Request prim net out) (s s' : State net) (r : Raised)
        → perform prim net out q s ≡ some (err r, s')
        → (f : Failure) × (r ≡ failed f)
    perform-raises q s s' r = performed-OnlyFailed q s r s'

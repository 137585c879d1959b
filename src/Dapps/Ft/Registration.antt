-- ===== src/Dapps/Ft/Registration.antt =====
-- When `transfer` and `transfer_call` of src/py_near/dapps/ft/async_client.py register the receiver.
use py_near.Base.{
  ℕ, ◌/◌, ◌≤◌, ◌<◌, String, Bool, true, false, Option, none, some, Result, ok, err, ◌≡◌, refl, ltb,
  arith, if◌then◌else◌,
}
use py_near.Errors.Exception.{Exception, Raises}
use py_near.Provider.Network.{Network}
use py_near.Transactions.{Primitives}
use py_near.Account.State.{State}
use py_near.Account.Submit.{Sent, Failure}
use py_near.Dapps.Raised.{Ending, ClientCall, failed, ended}
use py_near.Dapps.Views.{near, FtModel, model, Outside}
use py_near.Dapps.Ft.{
  storage_balance_of, storage_deposit, then_call, deposit_below, registered, transfer,
  transfer_call,
}

module _ (prim : Primitives) (net : Network) (ft : FtModel) (receiver_id : String) where
  abbrev deposit : State net → Option (Result Failure Sent × State net)
  deposit = storage_deposit prim net (model ft) (some receiver_id) (near / 50)

  -- How a transfer that registers its receiver ends, by the storage balance that was found and by
  -- the transfer that does not register. An exception ends it; with a five hundredth NEAR or more it
  -- is the plain transfer; with less it is the plain transfer from where the deposit of a fiftieth
  -- leaves the account, unless the deposit raises or waits.
  pub data Registers (plain : ClientCall net) : Raises ℕ × State net → Ending net → Type 0 where
    unknown :
        (e : Exception) (s : State net)
        → Registers plain
            (err e, s)
            (some (err (failed (record { exception = e; trx_hash = none })), s))
    known :
        (balance : ℕ) (s : State net)
        → near / 500 ≤ balance
        → Registers plain (ok balance, s) (plain s)
    deposits :
        (balance : ℕ) (s s' : State net) (sent : Sent)
        → balance < near / 500
        → deposit s ≡ some (ok sent, s')
        → Registers plain (ok balance, s) (plain s')
    refused :
        (balance : ℕ) (s s' : State net) (f : Failure)
        → balance < near / 500
        → deposit s ≡ some (err f, s')
        → Registers plain (ok balance, s) (some (err (failed f), s'))
    waits :
        (balance : ℕ) (s : State net)
        → balance < near / 500
        → deposit s ≡ none
        → Registers plain (ok balance, s) none

  by_deposit :
      (plain : ClientCall net) (balance : ℕ) (s : State net)
      → balance < near / 500
      → (o : Option (Result Failure Sent × State net)) → deposit s ≡ o
      → Registers plain (ok balance, s) (then_call prim net (ended net o) plain)
  by_deposit plain balance s low none e = waits balance s low e
  by_deposit plain balance s low (some (ok sent, s')) e = deposits balance s s' sent low e
  by_deposit plain balance s low (some (err f, s')) e = refused balance s s' f low e

  by_test :
      (plain : ClientCall net) (balance : ℕ) (s : State net) (b : Bool)
      → ltb balance (near / 500) ≡ b
      → Registers plain
          (ok balance, s)
          (if b then then_call prim net (ended net (deposit s)) plain else plain s)
  by_test plain balance s true h = by_deposit plain balance s (ground arith) (deposit s) refl
  by_test plain balance s false h = known balance s (ground arith)

  deposit_below-Registers :
      (plain : ClientCall net) (r : Raises ℕ × State net)
      → Registers plain r (deposit_below prim net ft receiver_id plain r)
  deposit_below-Registers plain (ok balance, s) = by_test plain balance s _ refl
  deposit_below-Registers plain (err e, s) = unknown e s

  -- `transfer` and `transfer_call` with `force_register` ask for the storage balance of the receiver
  -- first, and end as `Registers` says by the same call without `force_register`.
  pub transfers-Register :
      (out : Outside) (amount : out.Float) (memo : String) (nowait : Bool) (s : State net)
      → Registers
          (transfer prim net out ft receiver_id amount memo false nowait)
          (storage_balance_of prim net (model ft) (some receiver_id) s)
          (transfer prim net out ft receiver_id amount memo true nowait s)
        × Registers
            (transfer_call prim net out ft receiver_id amount memo false nowait)
            (storage_balance_of prim net (model ft) (some receiver_id) s)
            (transfer_call prim net out ft receiver_id amount memo true nowait s)
  unfolding transfer transfer_call registered
  transfers-Register out amount memo nowait s =
      let found = storage_balance_of prim net (model ft) (some receiver_id) s in
      (
        deposit_below-Registers (transfer prim net out ft receiver_id amount memo false nowait)
            found,
        deposit_below-Registers (transfer_call prim net out ft receiver_id amount memo false nowait)
            found,
      )

-- ===== src/Account/Asked/Told.antt =====
-- How the end of a call of `sign_and_submit_tx` of src/py_near/account.py tells of the transaction
-- that it has signed.
use py_near.Base.{String, Bool, true, false, some, Result, ok, err, ◌≡◌, refl, subst, ok-injective}
use py_near.Base.Method.{pure, continued}
use py_near.Errors.Exception.{Raises}
use py_near.Provider.Network.{Network}
use py_near.Provider.Rpc.{send_tx, send_tx_and_wait}
use py_near.Transactions.{Bytes, Primitives}
use py_near.Account.State.{State}
use py_near.Account.Chain.{asking}
use py_near.Account.Submit.{
  Sent, hashed, answered, executed, Failure, finished, send, send_included,
}

-- A hash that is returned is that of the transaction.
abbrev pub Names : String → Sent → Type 0
Names trx_hash (hashed h) = h ≡ trx_hash
Names trx_hash (answered answer) = Unit
Names trx_hash (executed result) = Unit

-- So is the hash of an exception, which has one.
abbrev pub Tells : String → Result Failure Sent → Type 0
Tells trx_hash (ok sent) = Names trx_hash sent
Tells trx_hash (err f) = f.trx_hash ≡ some trx_hash

module _ (prim : Primitives) (net : Network) (trx_hash : String) where
  pure-Names :
      {A : Type 0} (f : A → Sent) (r : Raises A × State net) (sent : Sent)
      → ((a : A) → Names trx_hash (f a))
      → (continued (λ a. pure (f a)) r).0 ≡ ok sent
      → Names trx_hash sent
  pure-Names f (ok a, s) sent h e = subst (Names trx_hash) (ok-injective e) (h a)
  pure-Names f (err x, s) sent h e = cc

  send-Names :
      (receiver_id tx : String) (nowait included : Bool) (s : State net) (sent : Sent)
      → (send prim net receiver_id tx trx_hash nowait included s).0 ≡ ok sent
      → Names trx_hash sent
  unfolding send
  send-Names receiver_id tx nowait true s sent =
      pure-Names (λ answer. hashed trx_hash) (send_included prim net tx s) sent (λ a. refl)
  send-Names receiver_id tx true false s sent =
      pure-Names answered (asking prim net (λ p. send_tx net p tx) s) sent (λ a. tt)
  send-Names receiver_id tx false false s sent =
      pure-Names executed
        (asking prim net (λ p. send_tx_and_wait net p tx (some trx_hash) (some receiver_id)) s) sent
        (λ a. tt)

  finished-Tells :
      (pk : Bytes) (r : Raises Sent × State net)
      → ((sent : Sent) → r.0 ≡ ok sent → Names trx_hash sent)
      → Tells trx_hash (finished prim net pk trx_hash r).0
  finished-Tells pk (ok sent, s) h = h sent refl
  finished-Tells pk (err e, s) h = refl

  -- The end of a call that has signed.
  pub sent-Tells :
      (pk : Bytes) (receiver_id tx : String) (nowait included : Bool) (s : State net)
      → Tells trx_hash
          (finished prim net pk trx_hash
            (send prim net receiver_id tx trx_hash nowait included s)).0
  sent-Tells pk receiver_id tx nowait included s =
      finished-Tells pk (send prim net receiver_id tx trx_hash nowait included s)
        (send-Names receiver_id tx nowait included s)

-- ===== src/Account/Asked/Ends.antt =====
-- How a call of `sign_and_submit_tx` of src/py_near/account.py can end: before it has signed, when
-- it has only asked, or with what it sends then.
use py_near.Base.{
  ℕ, String, Bool, Option, none, some, List, [], ◌∷◌, ◌++◌, Result, ok, err, ◌≡◌, refl, subst,
}
use py_near.Errors.Exception.{Exception, Raises, value_error}
use py_near.Provider.Network.{Network, Request}
use py_near.Provider.Recorded.{recorded}
use py_near.Transactions.{Bytes, NearActions, Primitives}
use py_near.Account.State.{State}
use py_near.Account.Chain.{update_last_block_hash}
use py_near.Account.Submit.{
  Sent, Failure, next_nonce, plain, submit_signed, signed, submit_with, with_nonce, take_signer,
  submit_taken, submit_fresh, submit_by, sign_and_submit_tx,
}
use py_near.Account.Nonces.{HasNonce}
use py_near.Account.Nonces.Stored.{next_nonce-stored}
use py_near.Account.Asked.{Asked, update-Asking, next_nonce-Asking}

module _ (prim : Primitives) (net : Network) (before : List Request) where
  take_signer-Asked :
      (s : State (recorded net))
      → Asked prim net before s
      → (pk : Bytes) (s' : State (recorded net)) → take_signer prim (recorded net) s ≡ some (pk, s')
      → Asked prim net before s'
  unfolding take_signer
  take_signer-Asked s asked pk s' e = by_queue s.account.free_signers e
    where
      by_queue :
          (l : List Bytes)
          → (elim l as (λ l. Option (Bytes × State (recorded net))) [
            | [] ↦ none
            | k ∷ rest ↦
                some
                  (k, record s { account = record s.account { free_signers = rest ++ (k ∷ []) } })
          ])
            ≡ some (pk, s')
          → Asked prim net before s'
      by_queue [] e = cc
      by_queue (k ∷ rest) e =
          subst
            (λ (o : Option (Bytes × State (recorded net))). elim o as (λ o. Type 0) [
              | none ↦ Unit
              | some p ↦ Asked prim net before p.1
            ])
            e asked

-- A property of the ends that holds of an exception after questions alone, and of what follows the
-- signing after questions alone, with the nonce that is stored.
module _ (prim : Primitives) (net : Network) (before : List Request) (receiver_id : String)
    (actions : NearActions) (nowait included : Bool)
    (Q : Result Failure Sent × State (recorded net) → Type 0)
    (raised : (e : Exception) (s : State (recorded net))
      → Asked prim net before s
      → Q (err (record { exception = e; trx_hash = none }), s))
    (sent : (pk : Bytes) (nonce : ℕ) (s : State (recorded net))
      → HasNonce prim (recorded net) pk nonce s
      → Asked prim net before s
      → Q (
          submit_signed prim
            (recorded net)
            pk
            receiver_id
            nowait
            included
            (signed prim (recorded net) pk receiver_id actions nonce s)
            s)) where
  -- The property of the end, if there is one.
  abbrev Ends : Option (Result Failure Sent × State (recorded net)) → Type 0
  Ends none = Unit
  Ends (some r) = Q r

  with_nonce-Ends :
      (pk : Bytes) (r : Raises ℕ × State (recorded net))
      → ((nonce : ℕ) → r.0 ≡ ok nonce → HasNonce prim (recorded net) pk nonce r.1)
      → Asked prim net before r.1
      → Q (
          with_nonce prim
            (recorded net)
            pk
            receiver_id
            actions
            nowait
            included
            (plain prim (recorded net) r))
  with_nonce-Ends pk (ok nonce, s) h asked = sent pk nonce s (h nonce refl) asked
  with_nonce-Ends pk (err e, s) h asked = raised e s asked

  submit_taken-Ends :
      (o : Option (Bytes × State (recorded net)))
      → ((pk : Bytes) (s : State (recorded net)) → o ≡ some (pk, s) → Asked prim net before s)
      → Ends (submit_taken prim (recorded net) receiver_id actions nowait included o)
  unfolding submit_with
  submit_taken-Ends none h = tt
  submit_taken-Ends (some (pk, s)) h =
      with_nonce-Ends pk (next_nonce prim (recorded net) pk s)
        (next_nonce-stored prim (recorded net) pk s)
        ((next_nonce-Asking prim net before pk).asks s (h pk s refl))

  submit_fresh-Ends :
      (r : Raises (Unit {0}) × State (recorded net))
      → Asked prim net before r.1
      → Ends (submit_fresh prim (recorded net) receiver_id actions nowait included r)
  unfolding submit_fresh
  submit_fresh-Ends (err e, s) asked = raised e s asked
  submit_fresh-Ends (ok _, s) asked =
      submit_taken-Ends _ (take_signer-Asked prim net before s asked)

  submit_by-Ends :
      (s : State (recorded net)) (keys : List Bytes)
      → Asked prim net before s
      → Ends (submit_by prim (recorded net) receiver_id actions nowait included s keys)
  submit_by-Ends s [] asked = raised value_error s asked
  submit_by-Ends s (pk ∷ rest) asked =
      submit_fresh-Ends (update_last_block_hash prim (recorded net) s)
        ((update-Asking prim net before).asks s asked)

  pub sign_and_submit_tx-Ends :
      (s : State (recorded net)) (r : Result Failure Sent × State (recorded net))
      → Asked prim net before s
      → sign_and_submit_tx prim (recorded net) receiver_id actions nowait included s ≡ some r
      → Q r
  unfolding sign_and_submit_tx
  sign_and_submit_tx-Ends s r asked e = subst Ends e (submit_by-Ends s s.account.signers asked)

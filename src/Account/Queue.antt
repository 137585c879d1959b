-- ===== src/Account/Queue.antt =====
-- The queue `_free_signers` of src/py_near/account.py across a call of `sign_and_submit_tx`.
use py_near.Base.{
  ℕ, String, Bool, Option, none, some, List, [], ◌∷◌, ◌++◌, Result, ok, err, ◌≡◌, refl, sym, subst,
  ◌∙◌,
}
use py_near.Errors.Exception.{Raises}
use py_near.Provider.Network.{Network}
use py_near.Transactions.{Bytes, NearActions, Primitives}
use py_near.Account.State.{State}
use py_near.Account.Kept.Steps.{Blind, update-Keeps, next_nonce-Keeps}
use py_near.Account.Kept.{send-Keeps}
use py_near.Account.Chain.{update_last_block_hash}
use py_near.Account.Submit.{
  Sent, Failure, next_nonce, send, finished, plain, signed, submit_signed, submit_with, submit_by,
  with_nonce, submit_taken, take_signer, submit_fresh, sign_and_submit_tx,
}

module _ (prim : Primitives) (net : Network) where
  abbrev free : State net → List Bytes
  free s = s.account.free_signers

  free-Blind : Blind prim net free
  free-Blind = record {
    world = λ s w. refl;
    hash = λ h. record { kept = λ s. refl };
    height = λ h. record { kept = λ s. refl };
    time = record { kept = λ s. refl };
  }

  -- The queue after a call with the key at its front: as it was when the call ended before it took
  -- the key; turned by one when it ended before the transaction was sent; turned, and with the key
  -- put in once more, when it was sent, whatever came of it.
  pub data Turn (pk : Bytes) (rest : List Bytes) : Result Failure Sent → List Bytes → Type 0 where
    untouched : (f : Failure) → f.trx_hash ≡ none → Turn pk rest (err f) (pk ∷ rest)
    turned : (f : Failure) → f.trx_hash ≡ none → Turn pk rest (err f) (rest ++ (pk ∷ []))
    returned : (sent : Sent) → Turn pk rest (ok sent) ((rest ++ (pk ∷ [])) ++ (pk ∷ []))
    refused :
        (f : Failure) (trx_hash : String)
        → f.trx_hash ≡ some trx_hash
        → Turn pk rest (err f) ((rest ++ (pk ∷ [])) ++ (pk ∷ []))

  module _ (pk : Bytes) (rest : List Bytes) where
    finished-Turn :
        (trx_hash : String) (r : Raises Sent × State net)
        → free r.1 ≡ rest ++ (pk ∷ [])
        → let r' = finished prim net pk trx_hash r in Turn pk rest r'.0 (free r'.1)
    finished-Turn trx_hash (ok sent, s) h =
        subst (λ l. Turn pk rest (ok sent) (l ++ (pk ∷ []))) (sym h) (returned sent)
    finished-Turn trx_hash (err e, s) h =
        let f : Failure = record { exception = e; trx_hash = some trx_hash } in
        subst (λ l. Turn pk rest (err f) (l ++ (pk ∷ []))) (sym h) (refused f trx_hash refl)

    submit_signed-Turn :
        (receiver_id : String) (nowait included : Bool) (r : Raises (String × String))
        → (s : State net) → free s ≡ rest ++ (pk ∷ [])
        → let r' = submit_signed prim net pk receiver_id nowait included r s in
          Turn pk rest r'.0 (free r'.1)
    unfolding submit_signed
    submit_signed-Turn receiver_id nowait included (err e) s h =
        let f : Failure = record { exception = e; trx_hash = none } in
        subst (λ l. Turn pk rest (err f) l) (sym h) (turned f refl)
    submit_signed-Turn receiver_id nowait included (ok (trx_hash, tx)) s h =
        finished-Turn trx_hash (send prim net receiver_id tx trx_hash nowait included s) (
          (send-Keeps prim net free (λ s w. refl) receiver_id tx trx_hash nowait included).kept s
          ∙ h)

    after_nonce-Turn :
        (receiver_id : String) (actions : NearActions) (nowait included : Bool)
        → (r : Raises ℕ × State net) → free r.1 ≡ rest ++ (pk ∷ [])
        → let r' = with_nonce prim net pk receiver_id actions nowait included (plain prim net r) in
          Turn pk rest r'.0 (free r'.1)
    after_nonce-Turn receiver_id actions nowait included (ok nonce, s) h =
        submit_signed-Turn receiver_id nowait included
          (signed prim net pk receiver_id actions nonce s) s h
    after_nonce-Turn receiver_id actions nowait included (err e, s) h =
        let f : Failure = record { exception = e; trx_hash = none } in
        subst (λ l. Turn pk rest (err f) l) (sym h) (turned f refl)

    submit_with-Turn :
        (receiver_id : String) (actions : NearActions) (nowait included : Bool) (s : State net)
        → free s ≡ rest ++ (pk ∷ [])
        → let r' = submit_with prim net pk receiver_id actions nowait included s in
          Turn pk rest r'.0 (free r'.1)
    unfolding submit_with
    submit_with-Turn receiver_id actions nowait included s h =
        after_nonce-Turn receiver_id actions nowait included (next_nonce prim net pk s)
          ((next_nonce-Keeps prim net free free-Blind pk (λ n s. refl)).kept s ∙ h)

    -- A call ends with a result and a queue that took a turn.
    abbrev pub Ended : Option (Result Failure Sent × State net) → Type 0
    Ended o =
        (r : Result Failure Sent) × (s' : State net) × (o ≡ some (r, s')) × Turn pk rest r (free s')

    taken :
        (receiver_id : String) (actions : NearActions) (nowait included : Bool) (s : State net)
        → free s ≡ pk ∷ rest
        → Ended (submit_taken prim net receiver_id actions nowait included (take_signer prim net s))
    unfolding take_signer
    taken receiver_id actions nowait included s h =
        let s' : State net = record s {
          account = record s.account { free_signers = rest ++ (pk ∷ []) };
        } in
        rw h (_, _, refl, submit_with-Turn receiver_id actions nowait included s' refl)

    fresh :
        (receiver_id : String) (actions : NearActions) (nowait included : Bool)
        → (r : Raises (Unit {0}) × State net) → free r.1 ≡ pk ∷ rest
        → Ended (submit_fresh prim net receiver_id actions nowait included r)
    unfolding submit_fresh
    fresh receiver_id actions nowait included (ok _, s) h =
        taken receiver_id actions nowait included s h
    fresh receiver_id actions nowait included (err e, s) h =
        let f : Failure = record { exception = e; trx_hash = none } in
        (err f, s, refl, subst (λ l. Turn pk rest (err f) l) (sym h) (untouched f refl))

  -- With a signer and a key in the queue, a call does not wait for ever, and the queue takes one of
  -- the turns of `Turn`: it grows by one with each transaction that is sent, and never shrinks.
  pub sign_and_submit_tx-Turn :
      (receiver_id : String) (actions : NearActions) (nowait included : Bool)
      → (pk first : Bytes) (rest others : List Bytes) (s : State net)
      → s.account.signers ≡ first ∷ others
      → s.account.free_signers ≡ pk ∷ rest
      → Ended pk rest (sign_and_submit_tx prim net receiver_id actions nowait included s)
  unfolding sign_and_submit_tx
  sign_and_submit_tx-Turn receiver_id actions nowait included pk first rest others s h k =
      subst (λ l. Ended pk rest (submit_by prim net receiver_id actions nowait included s l))
        (sym h)
        (fresh pk rest receiver_id actions nowait included (update_last_block_hash prim net s)
          ((update-Keeps prim net free free-Blind).kept s ∙ k))

-- ===== src/Account/Answered.antt =====
-- What a call of `sign_and_submit_tx` of src/py_near/account.py returns.
use py_near.Base.{
  ℕ, String, Bool, true, false, Option, none, some, List, [], ◌∷◌, Result, ok, err, ◌≡◌, refl, sym,
  subst, str_eq, >>=-eq-ok, ok-injective,
}
use py_near.Base.Method.{continued, pure}
use py_near.Json.{Json}
use py_near.Errors.Exception.{Raises}
use py_near.Models.Results.{TransactionResult}
use py_near.Provider.Network.{Network}
use py_near.Provider.Rpc.{send_tx, send_tx_and_wait}
use py_near.Provider.Rpc.Waiting.{send_tx_and_wait_found}
use py_near.Transactions.{
  Bytes, bytes, NearActions, Transaction, Primitives, calc_trx_hash, public_key_of, key_bytes,
}
use py_near.Account.State.{State}
use py_near.Account.Signed.{sign_tx-SignedFor}
use py_near.Account.Chain.{asking, update_last_block_hash}
use py_near.Account.Submit.{
  Sent, hashed, answered, executed, Failure, next_nonce, send, send_included, finished, plain,
  signed, submit_signed, submit_with, submit_by, with_nonce, submit_taken, take_signer,
  submit_fresh, sign_and_submit_tx,
}

-- A hash with `included`, the node's answer with `nowait`, and else the result of the transaction.
abbrev pub Shape : Bool → Bool → Sent → Type 0
Shape nowait true s = (h : String) × (s ≡ hashed h)
Shape true false s = (v : Json) × (s ≡ answered v)
Shape false false s = (r : TransactionResult) × (s ≡ executed (some r))

module _ (prim : Primitives) (net : Network) where
  -- A result of a method that ends by making a value.
  made-ok :
      {A : Type 0} (g : A → Sent) (r : Raises A × State net) (s : Sent)
      → (continued (λ a. pure (g a)) r).0 ≡ ok s
      → (a : A) × (r.0 ≡ ok a) × (s ≡ g a)
  made-ok g (ok a, t) s h = (a, refl, sym (ok-injective h))
  made-ok g (err e, t) s h = cc

  executed-some :
      (o : Option TransactionResult) (r : Raises (Option TransactionResult)) (s : Sent)
      → (r ≡ ok none → ⊥)
      → r ≡ ok o
      → s ≡ executed o
      → (t : TransactionResult) × (s ≡ executed (some t))
  executed-some none r s never h e = absurd (never h)
  executed-some (some t) r s never h e = (t, e)

  module _ (receiver_id : String) (receiver : str_eq receiver_id "" ≡ false) where
    send-Shape :
        (tx trx_hash : String) (nowait included : Bool) (t : State net) (s : Sent)
        → str_eq trx_hash "" ≡ false
        → (send prim net receiver_id tx trx_hash nowait included t).0 ≡ ok s
        → Shape nowait included s
    unfolding send
    send-Shape tx trx_hash nowait true t s filled h =
        let (a, _, e) = made-ok (λ a. hashed trx_hash) (send_included prim net tx t) s h in
        (trx_hash, e)
    send-Shape tx trx_hash true false t s filled h =
        let (v, _, e) = made-ok answered (asking prim net (λ p. send_tx net p tx) t) s h in (v, e)
    send-Shape tx trx_hash false false t s filled h =
        let (o, found, e) =
          made-ok executed
            (asking prim net (λ p. send_tx_and_wait net p tx (some trx_hash) (some receiver_id)) t)
            s h in
        executed-some o _ s
          (send_tx_and_wait_found net t.account.provider tx trx_hash receiver_id t.world filled
            receiver)
          found e

  -- A result of this shape, or an exception.
  abbrev Shaped : Bool → Bool → Result Failure Sent → Type 0
  Shaped nowait included (ok s) = Shape nowait included s
  Shaped nowait included (err f) = Unit

  finished-Shaped :
      (pk : Bytes) (trx_hash : String) (nowait included : Bool) (r : Raises Sent × State net)
      → ((s : Sent) → r.0 ≡ ok s → Shape nowait included s)
      → Shaped nowait included (finished prim net pk trx_hash r).0
  finished-Shaped pk trx_hash nowait included (ok s, t) h = h s refl
  finished-Shaped pk trx_hash nowait included (err e, t) h = tt

  -- base58 writes no hash as the empty text.
  abbrev pub WritesHashes : Type 0
  WritesHashes = (t : Transaction) → str_eq (prim.b58encode (prim.get_hash t)) "" ≡ false

  calc_trx_hash-filled :
      (account_id : String) (pk : Bytes) (receiver_id : String) (nonce : ℕ) (actions : NearActions)
      (block_hash : Bytes) (trx_hash : String)
      → WritesHashes
      → calc_trx_hash prim account_id (bytes pk) receiver_id nonce actions block_hash ≡ ok trx_hash
      → str_eq trx_hash "" ≡ false
  unfolding calc_trx_hash key_bytes
  calc_trx_hash-filled account_id pk receiver_id nonce actions block_hash trx_hash writes h =
      let (key, _, e) = >>=-eq-ok (public_key_of prim pk) _ h in
      subst (λ s. str_eq s "" ≡ false) (ok-injective e) (writes _)

  module _ (receiver_id : String) (actions : NearActions) (nowait included : Bool)
      (receiver : str_eq receiver_id "" ≡ false) (writes : WritesHashes) where
    submit_signed-Shaped :
        (pk : Bytes) (r : Raises (String × String)) (s : State net)
        → ((trx_hash tx : String) → r ≡ ok (trx_hash, tx) → str_eq trx_hash "" ≡ false)
        → Shaped nowait included (submit_signed prim net pk receiver_id nowait included r s).0
    unfolding submit_signed
    submit_signed-Shaped pk (err e) s filled = tt
    submit_signed-Shaped pk (ok (trx_hash, tx)) s filled =
        finished-Shaped pk trx_hash nowait included _ (λ a.
          send-Shape receiver_id receiver tx trx_hash nowait included s a (filled trx_hash tx refl))

    with_nonce-Shaped :
        (pk : Bytes) (r : Raises ℕ × State net)
        → Shaped nowait included
            (with_nonce prim net pk receiver_id actions nowait included (plain prim net r)).0
    with_nonce-Shaped pk (err e, s) = tt
    with_nonce-Shaped pk (ok nonce, s) =
        submit_signed-Shaped pk (signed prim net pk receiver_id actions nonce s) s (λ trx_hash tx e.
          let (block_hash, _, hashed_as, _) =
            sign_tx-SignedFor prim pk receiver_id actions nonce s.account trx_hash tx e in
          calc_trx_hash-filled s.account.account_id pk receiver_id nonce actions block_hash trx_hash
            writes hashed_as)

    -- The end of a call, if it does not wait for ever.
    abbrev EndShaped : Option (Result Failure Sent × State net) → Type 0
    EndShaped none = Unit
    EndShaped (some (r, s)) = Shaped nowait included r

    taken-Shaped :
        (o : Option (Bytes × State net))
        → EndShaped (submit_taken prim net receiver_id actions nowait included o)
    unfolding submit_with
    taken-Shaped none = tt
    taken-Shaped (some (pk, s)) = with_nonce-Shaped pk (next_nonce prim net pk s)

    fresh-Shaped :
        (r : Raises (Unit {0}) × State net)
        → EndShaped (submit_fresh prim net receiver_id actions nowait included r)
    unfolding submit_fresh
    fresh-Shaped (ok _, s) = taken-Shaped (take_signer prim net s)
    fresh-Shaped (err e, s) = tt

    by-Shaped :
        (s : State net) (l : List Bytes)
        → EndShaped (submit_by prim net receiver_id actions nowait included s l)
    by-Shaped s [] = tt
    by-Shaped s (pk ∷ rest) = fresh-Shaped (update_last_block_hash prim net s)

    -- If base58 writes no hash as the empty text, what a call to a receiver with a name that is not
    -- empty returns has the type that its flags ask for: a hash with `included`, an answer of the
    -- node with `nowait`, and with neither the result of a transaction, never `None`.
    pub sign_and_submit_tx-Shape :
        (s s' : State net) (a : Sent)
        → sign_and_submit_tx prim net receiver_id actions nowait included s ≡ some (ok a, s')
        → Shape nowait included a
    unfolding sign_and_submit_tx
    sign_and_submit_tx-Shape s s' a e = subst EndShaped e (by-Shaped s s.account.signers)

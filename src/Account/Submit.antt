-- ===== src/Account/Submit.antt =====
-- `sign_and_submit_tx` of src/py_near/account.py.
use py_near.Base.{
  ℕ, zero, suc, String, Bool, true, false, Option, none, some, List, [], ◌∷◌, ◌++◌, Result, ok, err,
  if◌then◌else◌,
}
use py_near.Base.Method.{Method, pure, lift, continued, try_except, ◌>>=◌}
use py_near.Json.{Json, null, bool, num}
use py_near.Errors.Classes.{rpc_timeout_error}
use py_near.Errors.Exception.{Exception, Raises, caught_by, value_error, type_error}
use py_near.Models.Results.{TransactionResult}
use py_near.Provider.Network.{Network}
use py_near.Provider.Rpc.{send_tx, send_tx_included, send_tx_and_wait}
use py_near.Transactions.{Bytes, NearActions, Primitives}
use py_near.Account.Sign.{sign_tx}
use py_near.Account.State.{State, nonce_of}
use py_near.Account.Chain.{Action, asking, update_last_block_hash, get_access_key}

-- What a call returns: the hash, the answer of `send_tx`, or what was waited for.
pub data Sent : Type 0 where
  hashed : String → Sent
  answered : Json → Sent
  executed : Option TransactionResult → Sent

-- The exception with the attribute `trx_hash` that it was given, if it was.
pub record Failure : Type 0 where
  pub exception : Exception
  pub trx_hash : Option String

-- `nonce == 0`
unfoldable pub is_zero : Json → Bool
is_zero (num zero) = true
is_zero (bool false) = true
is_zero _ = false

-- `nonce + 1`
unfoldable pub plus_one : Json → Raises ℕ
plus_one (num n) = ok (suc n)
plus_one (bool b) = ok (if b then 2 else 1)
plus_one _ = err type_error

module _ (prim : Primitives) (net : Network) where
  -- `self._access_key_nonce[pk] = nonce`
  abbrev pub store : Bytes → Json → State net → State net
  store pk nonce s = record s { nonces = (pk, nonce) ∷ s.nonces }

  abbrev pub counted : Bytes → State net → Raises ℕ → Raises ℕ × State net
  counted pk s (err e) = (err e, s)
  counted pk s (ok n) = (ok n, store pk (num n) s)

  -- `self._access_key_nonce[pk] += 1`, and the value that it has then.
  unfoldable pub increment : Bytes → Action prim net ℕ
  increment pk s = counted pk s (plus_one (nonce_of pk s.nonces))

  -- The nonce of the access key on the chain is stored when there is none.
  unfoldable pub fetch_nonce : Bytes → Action prim net (Unit {0})
  fetch_nonce pk = do
    access_key ← get_access_key prim net pk
    (λ s. (ok tt, store pk access_key.nonce s))

  unfoldable pub next_nonce : Bytes → Action prim net ℕ
  next_nonce pk s =
      if is_zero (nonce_of pk s.nonces)
      then continued (λ _. increment pk) (fetch_nonce pk s)
      else increment pk s

  -- The inner `try`: an `RPCTimeoutError` is passed over.
  unfoldable pub send_included : String → Action prim net Json
  send_included serialized_tx =
      try_except (asking prim net (λ p. send_tx_included net p serialized_tx))
        (λ e. lift (if caught_by rpc_timeout_error e then ok null else err e))

  -- The body of the `try`.
  unfoldable pub send : String → String → String → Bool → Bool → Action prim net Sent
  send receiver_id serialized_tx trx_hash nowait included =
      if included
      then (do answer ← send_included serialized_tx; pure (hashed trx_hash))
      else if nowait
      then (do answer ← asking prim net (λ p. send_tx net p serialized_tx); pure (answered answer))
      else (do
        result ←
            asking prim net
              (λ p. send_tx_and_wait net p serialized_tx (some trx_hash) (some receiver_id))
        pure (executed result))

  -- `self._free_signers.put(pk)`
  abbrev pub put_signer : Bytes → State net → State net
  put_signer pk s = record s {
    account = record s.account { free_signers = s.account.free_signers ++ (pk ∷ []) };
  }

  abbrev pub Submission : Type 0 → Type 0
  Submission = Method (State net) Failure

  -- An exception raised before the `try`.
  abbrev pub plain : {A : Type 0} → Raises A × State net → Result Failure A × State net
  plain (ok a, s) = (ok a, s)
  plain (err e, s) = (err (record { exception = e; trx_hash = none }), s)

  -- The two handlers and the `finally` with the key.
  abbrev pub finished : Bytes → String → Raises Sent × State net → Result Failure Sent × State net
  finished pk trx_hash (ok sent, s) = (ok sent, put_signer pk s)
  finished pk trx_hash (err e, s) =
      (err (record { exception = e; trx_hash = some trx_hash }), put_signer pk s)

  -- The hash and the signed text for a nonce.
  abbrev pub signed : Bytes → String → NearActions → ℕ → State net → Raises (String × String)
  signed pk receiver_id actions nonce s = sign_tx prim s.account pk receiver_id actions nonce

  -- The call from the nonce on, with the signed transaction.
  unfoldable pub submit_signed :
      Bytes → String → Bool → Bool → Raises (String × String) → Submission Sent
  submit_signed pk receiver_id nowait included (err e) s = plain (err e, s)
  submit_signed pk receiver_id nowait included (ok (trx_hash, serialized_tx)) s =
      finished pk trx_hash (send receiver_id serialized_tx trx_hash nowait included s)

  abbrev pub with_nonce :
      Bytes
      → String
      → NearActions
      → Bool
      → Bool
      → Result Failure ℕ × State net
      → Result Failure Sent × State net
  with_nonce pk receiver_id actions nowait included = continued (λ nonce s.
      submit_signed pk receiver_id nowait included (signed pk receiver_id actions nonce s) s)

  -- The call with its key.
  unfoldable pub submit_with : Bytes → String → NearActions → Bool → Bool → Submission Sent
  submit_with pk receiver_id actions nowait included s =
      with_nonce pk receiver_id actions nowait included (plain (next_nonce pk s))

  -- `await self._free_signers.get()` and `put`: `none` where the queue is empty and the call waits.
  unfoldable pub take_signer : State net → Option (Bytes × State net)
  take_signer s = elim s.account.free_signers [
    | [] ↦ none
    | pk ∷ rest ↦
        some (pk, record s { account = record s.account { free_signers = rest ++ (pk ∷ []) } })
  ]

  abbrev pub submit_taken :
      String
      → NearActions
      → Bool
      → Bool
      → Option (Bytes × State net)
      → Option (Result Failure Sent × State net)
  submit_taken receiver_id actions nowait included none = none
  submit_taken receiver_id actions nowait included (some (pk, s)) =
      some (submit_with pk receiver_id actions nowait included s)

  -- The call from the update of the block hash on.
  unfoldable pub submit_fresh :
      String
      → NearActions
      → Bool
      → Bool
      → Raises (Unit {0}) × State net
      → Option (Result Failure Sent × State net)
  submit_fresh receiver_id actions nowait included (err e, s) = some (plain (err e, s))
  submit_fresh receiver_id actions nowait included (ok _, s) =
      submit_taken receiver_id actions nowait included (take_signer s)

  -- The call, by the keys that the account has.
  abbrev pub submit_by :
      String
      → NearActions
      → Bool
      → Bool
      → State net
      → List Bytes
      → Option (Result Failure Sent × State net)
  submit_by receiver_id actions nowait included s [] = some (plain (err value_error, s))
  submit_by receiver_id actions nowait included s (pk ∷ rest) =
      submit_fresh receiver_id actions nowait included (update_last_block_hash prim net s)

  -- `sign_and_submit_tx`; `none` is a call that waits for ever.
  unfoldable pub sign_and_submit_tx :
      String → NearActions → Bool → Bool → State net → Option (Result Failure Sent × State net)
  sign_and_submit_tx receiver_id actions nowait included s =
      submit_by receiver_id actions nowait included s s.account.signers

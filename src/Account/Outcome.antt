-- ===== src/Account/Outcome.antt =====
-- What `sign_and_submit_tx` of src/py_near/account.py makes of an answer with `included`, and what
-- `stake` raises.
use py_near.Base.{
  String, Bool, true, false, none, some, Result, ok, err, ◌≡◌, refl, ap, ◌>>=◌, if◌then◌else◌,
}
use py_near.Base.Method.{continued, handled, pure}
use py_near.Json.{Json, null}
use py_near.Errors.Classes.{rpc_timeout_error}
use py_near.Errors.Exception.{Exception, Raises, caught_by, type_error}
use py_near.Provider.Network.{Network}
use py_near.Transactions.{Bytes, text, words, Primitives, key_bytes, create_staking_action}
use py_near.Account.State.{State}
use py_near.Account.Submit.{Sent, hashed, Failure, send_included, send, finished, submit_signed}
use py_near.Account.Calls.{stake, only, submit}

module _ (prim : Primitives) (net : Network) where
  -- A result that is the hash, or an exception that is no timeout.
  abbrev pub Included : String → Result Failure Sent → Type 0
  Included trx_hash (ok sent) = sent ≡ hashed trx_hash
  Included trx_hash (err f) =
      (f.trx_hash ≡ some trx_hash) × (caught_by rpc_timeout_error f.exception ≡ false)

  abbrev passed : Exception → State net → Raises Json × State net
  passed e s = ((if caught_by rpc_timeout_error e then ok null else err e), s)

  at_branch :
      (pk : Bytes) (trx_hash : String) (e : Exception) (s : State net) (b : Bool)
      → caught_by rpc_timeout_error e ≡ b
      → Included trx_hash
          (finished prim net pk trx_hash
            (continued (λ answer. pure (hashed trx_hash)) ((if b then ok null else err e), s))).0
  at_branch pk trx_hash e s true h = refl
  at_branch pk trx_hash e s false h = (refl, h)

  at_end :
      (pk : Bytes) (trx_hash : String) (r : Raises Json × State net)
      → Included trx_hash
          (finished prim net pk trx_hash
            (continued (λ answer. pure (hashed trx_hash)) (handled passed r))).0
  at_end pk trx_hash (ok answer, s) = refl
  at_end pk trx_hash (err e, s) = at_branch pk trx_hash e s _ refl

  -- With `included` a call that has signed its transaction returns the hash, whether the node
  -- includes the transaction or times out; any other exception is raised with the hash.
  pub submit_signed-Included :
      (pk : Bytes) (receiver_id : String) (nowait : Bool) (trx_hash tx : String) (s : State net)
      → Included trx_hash
          (submit_signed prim net pk receiver_id nowait true (ok (trx_hash, tx)) s).0
  unfolding submit_signed send send_included
  submit_signed-Included pk receiver_id nowait trx_hash tx s = at_end pk trx_hash _

  -- If `StakeAction` takes no text as an amount, as it is documented to take a whole number, no call
  -- of `stake` sends anything: the public key stands where the amount is meant, which is a `TypeError`
  -- unless the amount, which is decoded as a key, is a `ValueError` before. The state stays as it is.
  pub stake_raises :
      (public_key amount : String) (nowait : Bool) (s : State net)
      → ((t : String) (pk : Bytes) → prim.stake_action (words t) pk ≡ err type_error)
      → stake prim net public_key amount nowait s
        ≡ some (
          err (record {
            exception = elim (key_bytes prim (text amount)) [ err e ↦ e | ok key ↦ type_error ];
            trx_hash = none;
          }),
          s,
        )
  unfolding stake create_staking_action submit
  stake_raises public_key amount nowait s refuses = from (key_bytes prim (text amount))
    where
      from :
          (r : Raises Bytes)
          → submit prim net s.account.account_id
              (only prim net (r >>= λ key. prim.stake_action (words public_key) key))
              nowait
              false
              s
            ≡ some (
              err (record {
                exception = elim r as (λ r. Exception) [ err e ↦ e | ok key ↦ type_error ];
                trx_hash = none;
              }),
              s,
            )
      from (err e) = refl
      from (ok key) =
          ap (λ a. submit prim net s.account.account_id (only prim net a) nowait false s)
            (refuses public_key key)

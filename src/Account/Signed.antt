-- ===== src/Account/Signed.antt =====
-- The transaction that `sign_and_submit_tx` of src/py_near/account.py signs.
use py_near.Base.{ℕ, String, ok, ◌≡◌, ap, ◌∙◌, >>=-eq-ok}
use py_near.Errors.Exception.{Raises}
use py_near.Transactions.{
  Bytes, bytes, NearActions, Primitives, calc_trx_hash, sign_and_serialize_transaction,
}
use py_near.Transactions.Commitment.{OneTransaction, one_transaction}
use py_near.Account.State.{Account}
use py_near.Account.Sign.{decode_hash, sign_tx}

module _ (prim : Primitives) where
  -- The hash and the text belong to one transaction of the account with this key, nonce and block
  -- hash.
  abbrev pub SignedFor : Bytes → String → NearActions → ℕ → Account → String × String → Type 0
  SignedFor pk receiver_id actions nonce a (trx_hash, tx) =
      (block_hash : Bytes) × (decode_hash prim a.latest_block_hash ≡ ok block_hash)
      × (calc_trx_hash prim a.account_id (bytes pk) receiver_id nonce actions block_hash
          ≡ ok trx_hash)
      × OneTransaction prim a.account_id (bytes pk) receiver_id nonce actions block_hash tx

  ok-pair :
      (a b c d : String)
      → Path (Raises (String × String)) (ok (a, b)) (ok (c, d))
      → (a ≡ c) × (b ≡ d)
  ok-pair a b c d h = (cc, cc)

  -- When a call has signed, the hash that it will return and the text that it will send belong to
  -- one transaction: of the account, with the key, the nonce, and the block hash that is held.
  pub sign_tx-SignedFor :
      (pk : Bytes) (receiver_id : String) (actions : NearActions) (nonce : ℕ) (a : Account)
      (trx_hash tx : String)
      → sign_tx prim a pk receiver_id actions nonce ≡ ok (trx_hash, tx)
      → SignedFor pk receiver_id actions nonce a (trx_hash, tx)
  unfolding sign_tx
  sign_tx-SignedFor pk receiver_id actions nonce a trx_hash tx h =
      let (block_hash, e, h') = >>=-eq-ok (decode_hash prim a.latest_block_hash) _ h in
      let (hash, e', h'') =
        >>=-eq-ok (calc_trx_hash prim a.account_id (bytes pk) receiver_id nonce actions block_hash)
          _ h' in
      let (text, e'', h3) =
        >>=-eq-ok
          (sign_and_serialize_transaction prim a.account_id (bytes pk) receiver_id nonce actions
            block_hash)
          _ h'' in
      let (same_hash, same_text) = ok-pair hash text trx_hash tx h3 in
      (
        block_hash,
        e,
        e' ∙ ap ok same_hash,
        one_transaction prim a.account_id (bytes pk) receiver_id nonce actions block_hash tx
            (e'' ∙ ap ok same_text),
      )

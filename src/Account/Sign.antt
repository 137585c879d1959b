-- ===== src/Account/Sign.antt =====
-- The hash and the signed text that `sign_and_submit_tx` of src/py_near/account.py makes.
use py_near.Base.{ℕ, String, Option, none, some, ok, err, ◌>>=◌, or_raise}
use py_near.Json.{Json, str}
use py_near.Errors.Exception.{Raises, value_error, attribute_error}
use py_near.Transactions.{
  Bytes, bytes, NearActions, Primitives, calc_trx_hash, sign_and_serialize_transaction,
}
use py_near.Account.State.{Account}

-- `base58.b58decode(latest_block_hash.encode("utf8"))`
unfoldable pub decode_hash : Primitives → Option Json → Raises Bytes
decode_hash prim (some (str s)) = or_raise (prim.b58decode s) value_error
decode_hash prim (some _) = err attribute_error
decode_hash prim none = err attribute_error

-- From the block hash to the signed transaction.
unfoldable pub sign_tx :
    Primitives → Account → Bytes → String → NearActions → ℕ → Raises (String × String)
sign_tx prim a pk receiver_id actions nonce = do
  block_hash ← decode_hash prim a.latest_block_hash
  trx_hash ← calc_trx_hash prim a.account_id (bytes pk) receiver_id nonce actions block_hash
  serialized_tx ←
      sign_and_serialize_transaction prim a.account_id (bytes pk) receiver_id nonce actions
        block_hash
  ok (trx_hash, serialized_tx)

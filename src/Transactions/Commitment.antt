-- ===== src/Transactions/Commitment.antt =====
-- What the signed bytes and the hash of src/py_near/transactions.py stand for.
use py_near.Base.{ℕ, String, ◌<>◌, Option, none, some, ok, or_raise, ◌≡◌, refl, ap, >>=-eq-ok}
use py_near.Text.Laws.{remove_all-prefix}
use py_near.Errors.Exception.{Exception, value_error}
use py_near.Transactions.{
  Bytes, Key, text, NearActions, Transaction, Primitives, key_bytes, public_key_of,
  sign_and_serialize_transaction, calc_trx_hash,
}

module _ (prim : Primitives) where
  open prim use {b58encode, b64encode, to_vec, get_hash}

  or_raise-eq-ok :
      {A : Type 0} (o : Option A) (e : Exception) (a : A) → or_raise o e ≡ ok a → o ≡ some a
  or_raise-eq-ok none e a h = cc
  or_raise-eq-ok (some b) e a h = cc

  hashed :
      (account_id : String) (key : Key) (receiver_id : String) (nonce : ℕ) (actions : NearActions)
      → (block_hash pk public_key : Bytes) → key_bytes prim key ≡ ok pk
      → public_key_of prim pk ≡ ok public_key
      → calc_trx_hash prim account_id key receiver_id nonce actions block_hash
        ≡ ok (
            b58encode (
              get_hash (record {
                signer_id = account_id;
                public_key = public_key;
                nonce = nonce;
                receiver_id = receiver_id;
                block_hash = block_hash;
                actions = actions;
              })))
  unfolding calc_trx_hash
  hashed account_id key receiver_id nonce actions block_hash pk public_key e e' = rw e (rw e')

  -- A signed text and the hash of the same arguments are those of one transaction.
  abbrev pub OneTransaction : String → Key → String → ℕ → NearActions → Bytes → String → Type 0
  OneTransaction account_id key receiver_id nonce actions block_hash signed =
      (t : Transaction) × (pk vec : Bytes) × (key_bytes prim key ≡ ok pk)
      × (public_key_of prim pk ≡ ok t.public_key)
      × (to_vec t pk ≡ some vec)
      × (signed ≡ b64encode vec)
      × (calc_trx_hash prim account_id key receiver_id nonce actions block_hash
          ≡ ok (b58encode (get_hash t)))
      × (t.signer_id ≡ account_id)
      × (t.nonce ≡ nonce)
      × (t.receiver_id ≡ receiver_id)
      × (t.block_hash ≡ block_hash)
      × (t.actions ≡ actions)

  -- If a transaction is signed, its hash is calculated too: the signed text and the hash of the
  -- same arguments are those of one transaction with these arguments, whose public key is the one
  -- of the private key.
  pub one_transaction :
      (account_id : String) (key : Key) (receiver_id : String) (nonce : ℕ) (actions : NearActions)
      → (block_hash : Bytes) (signed : String)
      → sign_and_serialize_transaction prim account_id key receiver_id nonce actions block_hash
        ≡ ok signed
      → OneTransaction account_id key receiver_id nonce actions block_hash signed
  unfolding sign_and_serialize_transaction
  one_transaction account_id key receiver_id nonce actions block_hash signed h =
      let (pk, e, h') = >>=-eq-ok (key_bytes prim key) _ h in
      let (public_key, e', h'') = >>=-eq-ok (public_key_of prim pk) _ h' in
      let (vec, e'', h3) = >>=-eq-ok (or_raise (to_vec _ pk) value_error) _ h'' in
      (
        record {
          signer_id = account_id;
          public_key = public_key;
          nonce = nonce;
          receiver_id = receiver_id;
          block_hash = block_hash;
          actions = actions;
        },
        pk,
        vec,
        e,
        e',
        or_raise-eq-ok _ value_error vec e'',
        cc,
        hashed account_id key receiver_id nonce actions block_hash pk public_key e e',
        refl,
        refl,
        refl,
        refl,
        refl,
      )

  -- A private key with `ed25519:` before it is the key without it.
  pub key_bytes-prefix :
      (s : String) → key_bytes prim (text ("ed25519:" <> s)) ≡ key_bytes prim (text s)
  unfolding key_bytes
  key_bytes-prefix s =
      ap (λ t. or_raise (prim.b58decode t) value_error) (remove_all-prefix "e" "d25519:" s)

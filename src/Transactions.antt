-- ===== src/Transactions.antt =====
-- src/py_near/transactions.py: the actions, and the signed bytes and the hash of a transaction.
pub mod Commitment
use py_near.Base.{ℕ, zero, suc, String, Option, List, [], ◌∷◌, ok, ◌>>=◌, or_raise}
use py_near.Text.{remove_all}
use py_near.Json.{Json}
use py_near.Errors.Exception.{Raises, value_error}

abbrev pub Bytes : Type 0
Bytes = List ℕ

-- A key or a signature: base58 text, perhaps with `ed25519:` before it, or bytes.
pub data Key : Type 0 where
  text : String → Key
  bytes : Bytes → Key

-- The amount of a stake comes unchecked.
pub data Amount : Type 0 where
  number : ℕ → Amount
  words : String → Amount

pub data Permission : Type 0 where
  full_access : Permission
  function_call : String → List String → ℕ → Permission

-- The objects of `py_near_primitives` that the functions make, with the arguments that they give.
mutual
  pub data NearAction : Type 0 where
    create_account : NearAction
    add_key : Bytes → ℕ → Permission → NearAction
    delete_key : Bytes → NearAction
    transfer : ℕ → NearAction
    signed_delegate : DelegateAction → Bytes → NearAction
    stake : Amount → Bytes → NearAction
    deploy_contract : Bytes → NearAction
    call_function : String → Bytes → ℕ → ℕ → NearAction

  pub data NearActions : Type 0 where
    nil : NearActions
    cons : NearAction → NearActions → NearActions

  -- Sender, receiver, actions, nonce, maximal block height and public key.
  pub data DelegateAction : Type 0 where
    delegate : String → String → NearActions → ℕ → ℕ → Bytes → DelegateAction

pub record Transaction : Type 0 where
  pub signer_id : String
  pub public_key : Bytes
  pub nonce : ℕ
  pub receiver_id : String
  pub block_hash : Bytes
  pub actions : NearActions

-- base58, base64, nacl and py_near_primitives. `verify_key` is the public key of
-- `SigningKey(seed)`, which refuses a seed of another length than 32 bytes; `sign` is the signature
-- and the text after it. `to_vec` signs with the whole private key. `delegate_action` and
-- `stake_action` are the constructors of those objects, which may refuse their arguments. `dumps` is
-- `json.dumps` with `encode`, and `loads_chars` is `json.loads` on the text of the characters with these numbers.
pub record Primitives : Type 0 where
  pub b58decode : String → Option Bytes
  pub b58encode : Bytes → String
  pub b64encode : Bytes → String
  pub verify_key : Bytes → Option Bytes
  pub sign : Bytes → Bytes → Option Bytes
  pub to_vec : Transaction → Bytes → Option Bytes
  pub get_hash : Transaction → Bytes
  pub nep461_hash : DelegateAction → Bytes
  pub delegate_action : String → String → NearActions → ℕ → ℕ → Bytes → Raises DelegateAction
  pub stake_action : Amount → Bytes → Raises NearAction
  pub dumps : Json → Bytes
  pub loads_chars : Bytes → Option Json

-- `pk[:n]`
unfoldable pub take : ℕ → Bytes → Bytes
take zero bs = []
take (suc n) [] = []
take (suc n) (b ∷ bs) = b ∷ take n bs

module _ (prim : Primitives) where
  open prim use {b58decode, b58encode, b64encode, verify_key, to_vec, get_hash}

  -- `base58.b58decode(pk.replace("ed25519:", ""))` of a text; bytes are kept.
  unfoldable pub key_bytes : Key → Raises Bytes
  key_bytes (text s) = or_raise (b58decode (remove_all "ed25519:" s)) value_error
  key_bytes (bytes bs) = ok bs

  -- `SigningKey(pk[:32]).verify_key`
  unfoldable pub public_key_of : Bytes → Raises Bytes
  public_key_of pk = or_raise (verify_key (take 32 pk)) value_error

  unfoldable pub sign_and_serialize_transaction :
      String → Key → String → ℕ → NearActions → Bytes → Raises String
  sign_and_serialize_transaction account_id private_key receiver_id nonce actions block_hash = do
    pk ← key_bytes private_key
    public_key ← public_key_of pk
    signed_trx ←
        or_raise
          (to_vec
            (record {
              signer_id = account_id;
              public_key = public_key;
              nonce = nonce;
              receiver_id = receiver_id;
              block_hash = block_hash;
              actions = actions;
            })
            pk)
          value_error
    ok (b64encode signed_trx)

  unfoldable pub calc_trx_hash : String → Key → String → ℕ → NearActions → Bytes → Raises String
  calc_trx_hash account_id private_key receiver_id nonce actions block_hash = do
    pk ← key_bytes private_key
    public_key ← public_key_of pk
    ok (
        b58encode (
          get_hash (record {
            signer_id = account_id;
            public_key = public_key;
            nonce = nonce;
            receiver_id = receiver_id;
            block_hash = block_hash;
            actions = actions;
          })))

  unfoldable pub create_create_account_action : NearAction
  create_create_account_action = create_account

  unfoldable pub create_full_access_key_action : Key → Raises NearAction
  create_full_access_key_action pk = do
    public_key ← key_bytes pk
    ok (add_key public_key 0 full_access)

  unfoldable pub create_function_call_access_key_action :
      Key → ℕ → String → List String → Raises NearAction
  create_function_call_access_key_action pk allowance receiver_id method_names = do
    public_key ← key_bytes pk
    ok (add_key public_key 0 (function_call receiver_id method_names allowance))

  unfoldable pub create_delete_access_key_action : Key → Raises NearAction
  create_delete_access_key_action pk = do public_key ← key_bytes pk; ok (delete_key public_key)

  unfoldable pub create_signed_delegate : DelegateAction → Bytes → NearAction
  create_signed_delegate action signature = signed_delegate action signature

  unfoldable pub create_transfer_action : ℕ → NearAction
  create_transfer_action amount = transfer amount

  unfoldable pub create_staking_action : Amount → Key → Raises NearAction
  create_staking_action amount pk = do
    public_key ← key_bytes pk
    prim.stake_action amount public_key

  unfoldable pub create_deploy_contract_action : Bytes → NearAction
  create_deploy_contract_action code = deploy_contract code

  unfoldable pub create_function_call_action : String → Bytes → ℕ → ℕ → NearAction
  create_function_call_action method_name args gas deposit =
      call_function method_name args gas deposit

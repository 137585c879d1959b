-- ===== src/Account/Delegate.antt =====
-- `create_delegate_action` and `sign_delegate_transaction` of src/py_near/account.py, and
-- `DelegateActionModel` of src/py_near/models.py with the actions as NEAR actions.
pub mod Unsigned
pub mod Created
use py_near.Base.{ℕ, ◌+◌, String, Option, none, some, [], ◌∷◌, ok, err, or_raise}
use py_near.Base.Method.{lift, ◌>>=◌, ◌>>◌}
use py_near.Python.{number_of}
use py_near.Json.{Json}
use py_near.Errors.Exception.{Raises, value_error, key_error, index_error}
use py_near.Provider.Network.{Network}
use py_near.Transactions.{Bytes, NearActions, DelegateAction, delegate, Primitives}
use py_near.Transactions
use py_near.Account.State.{Account, public_key, find_signer}
use py_near.Account.Chain.{Action, get_access_key, update_last_block_hash}
use py_near.Account.Submit.{plus_one}

pub record DelegateActionModel : Type 0 where
  pub actions : NearActions
  pub sender_id : String
  pub receiver_id : String
  pub public_key : String
  pub nonce : ℕ
  pub max_block_height : ℕ

-- `DelegateAction` or `DelegateActionModel`
pub data Delegating : Type 0 where
  near : DelegateAction → Delegating
  model : DelegateActionModel → Delegating

-- `max_block_height` is a sum with a number.
unfoldable pub height_after : Json → Raises ℕ
height_after v = elim (number_of v) [ err e ↦ err e | ok n ↦ ok (n + 1000) ]

module _ (prim : Primitives) where
  abbrev pub near_with : DelegateActionModel → Raises Bytes → Raises DelegateAction
  near_with m (err e) = err e
  near_with m (ok key) =
      prim.delegate_action m.sender_id m.receiver_id m.actions m.nonce m.max_block_height key

  -- The property `near_delegate_action`.
  unfoldable pub near_delegate_action : DelegateActionModel → Raises DelegateAction
  near_delegate_action m = near_with m (or_raise (prim.b58decode m.public_key) value_error)

  unfoldable pub as_near : Delegating → Raises DelegateAction
  unfolding near_delegate_action
  as_near (near d) = ok d
  as_near (model m) = near_delegate_action m

  -- `delegate_action.public_key`
  unfoldable pub delegate_key : DelegateAction → Bytes
  delegate_key (delegate sender_id receiver_id actions nonce max_block_height key) = key

  -- `sign_delegate_transaction` with the private key that was found; the seed is the whole key.
  abbrev pub sign_with : DelegateAction → Option Bytes → Raises String
  sign_with d none = err value_error
  sign_with d (some pk) = elim (prim.sign pk (prim.nep461_hash d)) [
    | none ↦ err value_error
    | some signature ↦ ok (prim.b58encode signature)
  ]

  abbrev pub sign_near : Account → Raises DelegateAction → Raises String
  sign_near a (err e) = err e
  sign_near a (ok d) =
      sign_with d (find_signer (public_key (prim.b58encode (delegate_key d))) a.signer_by_pk)

  -- `sign_delegate_transaction`
  unfoldable pub sign_delegate_transaction : Account → Delegating → Raises String
  unfolding as_near
  sign_delegate_transaction a d = sign_near a (as_near d)

-- The private key of `create_delegate_action`.
unfoldable pub delegating_key : Option String → Account → Raises Bytes
delegating_key none a = elim a.signers [ [] ↦ err index_error | pk ∷ rest ↦ ok pk ]
delegating_key (some key) a = or_raise (find_signer (public_key key) a.signer_by_pk) (key_error key)

module _ (prim : Primitives) (net : Network) where
  -- `create_delegate_action`
  unfoldable pub create_delegate_action :
      NearActions → String → Option String → Action prim net DelegateActionModel
  create_delegate_action actions receiver_id key = do
    pk ← (λ s. (delegating_key key s.account, s))
    access_key ← get_access_key prim net pk
    update_last_block_hash prim net
    verifying_key ← lift (Transactions.public_key_of prim pk)
    nonce ← lift (plus_one access_key.nonce)
    max_block_height ← (λ s. (height_after s.account.latest_block_height, s))
    (λ s. (
      ok (record {
        actions = actions;
        sender_id = s.account.account_id;
        receiver_id = receiver_id;
        public_key = prim.b58encode verifying_key;
        nonce = nonce;
        max_block_height = max_block_height;
      }),
      s,
    ))

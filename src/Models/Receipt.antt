-- ===== src/Models/Receipt.antt =====
-- The dataclasses `ReceiptAction` and `ReceiptDelegateAction` of src/py_near/models.py, and how
-- keyword arguments fill the second.
use py_near.Base.{String, Option, none, [], ◌∷◌, ok, ◌>>=◌, ◌>>◌}
use py_near.Json.{Json, null, Fields}
use py_near.Python.{argument}
use py_near.Errors.Exception.{Raises}
use py_near.Models.Keys.{AccessKey, only, guard}

-- The fields of a `ReceiptAction` besides its type and its delegate action.
pub record Payload : Type 0 where
  pub deposit : Json
  pub gas : Json
  pub code : Json
  pub method_name : Json
  pub args : Json
  pub args_raw : Json
  pub beneficiary_id : Json
  pub public_key : Json
  pub access_key : Option AccessKey
  pub stake : Json
  pub signature : Json

abbrev pub empty : Payload
empty = record {
  deposit = null;
  gas = null;
  code = null;
  method_name = null;
  args = null;
  args_raw = null;
  beneficiary_id = null;
  public_key = null;
  access_key = none;
  stake = null;
  signature = null;
}

-- The fields of a `ReceiptDelegateAction` besides its actions.
pub record DelegateFields : Type 0 where
  pub sender_id : Json
  pub receiver_id : Json
  pub public_key : Json
  pub nonce : Json
  pub max_block_height : Json

mutual
  pub data ReceiptAction : Type 0 where
    receipt_action : String → Payload → DelegateValue → ReceiptAction

  -- A `ReceiptDelegateAction`, or the value that was passed under that name: `null` for `None`.
  pub data DelegateValue : Type 0 where
    raw : Json → DelegateValue
    delegated : ReceiptActions → DelegateFields → DelegateValue

  pub data ReceiptActions : Type 0 where
    done : ReceiptActions
    next : ReceiptAction → ReceiptActions → ReceiptActions

-- The keyword arguments `**data` of a delegate action.
unfoldable pub delegate_fields : Fields → Raises DelegateFields
unfolding only argument
delegate_fields fs = do
  guard (only ("sender_id" ∷ "receiver_id" ∷ "public_key" ∷ "nonce" ∷ "max_block_height" ∷ []) fs)
  sender_id ← argument fs "sender_id"
  receiver_id ← argument fs "receiver_id"
  public_key ← argument fs "public_key"
  nonce ← argument fs "nonce"
  max_block_height ← argument fs "max_block_height"
  ok (record {
    sender_id = sender_id;
    receiver_id = receiver_id;
    public_key = public_key;
    nonce = nonce;
    max_block_height = max_block_height;
  })

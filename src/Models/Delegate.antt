-- ===== src/Models/Delegate.antt =====
-- `DelegateActionModel.from_bytes` with `bytes_to_json`, `PublicKey.build`, and the properties
-- `near_delegate_action` and `nep461_hash` of src/py_near/models.py, for values that come from JSON.
pub mod RoundTrip
pub mod Refusals
use py_near.Base.{
  ℕ, String, Option, List, [], ◌∷◌, ok, err, ◌>>=◌, ◌>>◌, or_raise, str_eq, if◌then◌else◌,
}
use py_near.Text.{split}
use py_near.Json.{Json, str, arr, obj, Fields, lookup, without_key}
use py_near.Python.{get_item, int}
use py_near.Errors.Exception.{
  Raises, key_error, type_error, attribute_error, value_error, index_error, undelegated_action,
}
use py_near.Models.Types.{ActionType, type_name}
use py_near.Models.Keys.{AccessKey, full_access, function_call, build_access_key}
use py_near.Models.Receipt.{
  Payload, DelegateFields, ReceiptAction, receipt_action, ReceiptActions, done, next,
  delegate_fields,
}
use py_near.Models.Actions.{Codec, build_all}
use py_near.Transactions.{Bytes, Permission, NearAction, NearActions, nil, cons, DelegateAction}

-- `PublicKey.build`, with the access key built too.
pub record BuiltKey : Type 0 where
  pub public_key : Json
  pub access_key : AccessKey

unfoldable pub build_public_key : Json → Raises BuiltKey
unfolding get_item build_access_key
build_public_key d = do
  public_key ← get_item d "public_key"
  value ← get_item d "access_key"
  access_key ← build_access_key value
  ok (record { public_key = public_key; access_key = access_key })

-- The second argument of `AddKeyAction`: an `AccessKey` of py_near_primitives, or the one of
-- models.py that `AccessKey(nonce, AccessKeyPermissionFieldless.FullAccess)` makes: the nonce is its
-- permission type, and the permission is its nonce.
pub data KeyArgument : Type 0 where
  primitive : ℕ → Permission → KeyArgument
  dataclass : Json → KeyArgument

-- base58, base64, JSON and the classes of py_near_primitives, on values that come from JSON. What
-- they refuse is an exception of theirs.
pub record Library : Type 0 where
  pub b58decode : Json → Raises Bytes
  pub codec : Codec
  pub loads : String → Option Json
  pub delegate_to_json : Bytes → Raises String
  pub function_call_action : Json → Bytes → ℕ → ℕ → Raises NearAction
  pub function_call_permission : Json → Json → Json → Raises Permission
  pub access_key : Json → Permission → Raises (ℕ × Permission)
  pub add_key_action : Bytes → KeyArgument → Raises NearAction
  pub delegate_action : Json → Json → NearActions → Json → Json → Bytes → Raises DelegateAction
  pub nep461_hash : DelegateAction → Bytes

-- A `DelegateActionModel` that was read from bytes.
pub record ReadDelegate : Type 0 where
  pub actions : NearActions
  pub fields : DelegateFields

-- `d.pop("actions")`, where the rest of the dict is read without it.
unfoldable pub pop_item : Json → String → Raises (Json × Fields)
pop_item (obj fs) key = do v ← or_raise (lookup key fs) (key_error key); ok (v, without_key key fs)
pop_item (arr vs) key = err type_error
pop_item _ key = err attribute_error

-- `v.split(":")[1]`
unfoldable pub second_part : List String → Raises String
second_part (first ∷ second ∷ rest) = ok second
second_part _ = err index_error

unfoldable pub after_colon : Json → Raises String
unfolding second_part
after_colon (str s) = second_part (split ":" s)
after_colon _ = err attribute_error

module _ (lib : Library) where
  open lib use {
    codec, loads, delegate_to_json, function_call_action, function_call_permission, add_key_action,
  }

  -- `base64.b64decode(act.args_raw)`
  unfoldable pub decoded : Json → Raises Bytes
  decoded (str s) = or_raise (codec.b64decode s) value_error
  decoded _ = err type_error

  unfoldable pub call_action : Payload → Raises NearAction
  unfolding decoded
  call_action p = do
    args ← decoded p.args_raw
    gas ← int p.gas
    deposit ← int p.deposit
    function_call_action p.method_name args gas deposit

  -- `ak`
  unfoldable pub key_argument : AccessKey → Raises KeyArgument
  key_argument k = elim k.permission_type [
    | function_call ↦ do
      permission ← function_call_permission k.receiver_id k.method_names k.allowance
      (nonce, held) ← lib.access_key k.nonce permission
      ok (primitive nonce held)
    | full_access ↦ ok (dataclass k.nonce)
  ]

  unfoldable pub add_key : Payload → Raises NearAction
  unfolding key_argument after_colon
  add_key p = do
    key ← or_raise p.access_key attribute_error
    ak ← key_argument key
    part ← after_colon p.public_key
    bpk ← lib.b58decode (str part)
    add_key_action bpk ak

  -- One round of the loop of `from_bytes`.
  unfoldable pub raw_action : ReceiptAction → Raises NearAction
  unfolding call_action add_key
  raw_action (receipt_action kind p d) =
      if str_eq kind (type_name ActionType.function_call)
      then call_action p
      else if str_eq kind (type_name ActionType.add_key)
      then add_key p
      else err undelegated_action

  unfoldable pub raw_actions : ReceiptActions → Raises NearActions
  unfolding raw_action
  raw_actions done = ok nil
  raw_actions (next a rest) = do raw ← raw_action a; raws ← raw_actions rest; ok (cons raw raws)

  unfoldable pub bytes_to_json : Bytes → Raises Json
  bytes_to_json data' = do text ← delegate_to_json data'; or_raise (loads text) value_error

  unfoldable pub from_json : Json → Raises ReadDelegate
  unfolding raw_actions delegate_fields pop_item
  from_json read = do
    (value, fs) ← pop_item read "actions"
    actions ← build_all codec value
    raw ← raw_actions actions
    fields ← delegate_fields fs
    ok (record { actions = raw; fields = fields })

  -- `DelegateActionModel.from_bytes`
  unfoldable pub from_bytes : Bytes → Raises ReadDelegate
  unfolding bytes_to_json from_json
  from_bytes data' = do read ← bytes_to_json data'; from_json read

  -- `[a.near_action for a in self.actions]`: no action has that attribute.
  unfoldable pub near_actions : ReceiptActions → Raises NearActions
  near_actions done = ok nil
  near_actions (next a rest) = err attribute_error

  -- `DelegateAction(…)` of the fields, the key last.
  unfoldable pub near_of_fields : NearActions → DelegateFields → Raises DelegateAction
  near_of_fields actions d = do
    key ← lib.b58decode d.public_key
    lib.delegate_action d.sender_id d.receiver_id actions d.nonce d.max_block_height key

  -- `ReceiptDelegateAction.near_delegate_action`
  unfoldable pub receipt_near_delegate_action :
      ReceiptActions → DelegateFields → Raises DelegateAction
  unfolding near_actions near_of_fields
  receipt_near_delegate_action actions d = do near ← near_actions actions; near_of_fields near d

  -- `ReceiptDelegateAction.nep461_hash`
  unfoldable pub receipt_nep461_hash : ReceiptActions → DelegateFields → Raises Bytes
  unfolding receipt_near_delegate_action
  receipt_nep461_hash actions d = do
    near ← receipt_near_delegate_action actions d
    ok (lib.nep461_hash near)

  -- `DelegateActionModel.nep461_hash` of a model that was read from bytes.
  unfoldable pub read_nep461_hash : ReadDelegate → Raises Bytes
  unfolding near_of_fields
  read_nep461_hash m = do near ← near_of_fields m.actions m.fields; ok (lib.nep461_hash near)

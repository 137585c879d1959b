-- ===== src/Models/Actions.antt =====
-- `ReceiptAction.build` and `ReceiptDelegateAction.build` of src/py_near/models.py. The dict that
-- is built from is used up (`pop`, `del`); no caller reads it again.
pub mod Order
use py_near.Base.{
  ℕ, String, Bool, true, false, Option, none, some, List, [], ◌∷◌, ok, err, ◌>>=◌, ◌>>◌, str_eq,
  if◌then◌else◌,
}
use py_near.Json.{Json, null, str, arr, obj, Items, nil, cons, Fields, end, field, without_key}
use py_near.Python.{get_item}
use py_near.Errors.Exception.{
  Raises, key_error, type_error, attribute_error, value_error, index_error,
}
use py_near.Models.Types.{ActionType, type_name}
use py_near.Models.Keys.{AccessKey, build_access_key, only, optional, guard}
use py_near.Models.Receipt.{
  empty, ReceiptAction, receipt_action, DelegateValue, raw, delegated, ReceiptActions, done, next,
  delegate_fields,
}

-- The decoders of the standard library: base64, and JSON from bytes.
pub record Codec : Type 0 where
  pub b64decode : String → Option (List ℕ)
  pub loads_bytes : List ℕ → Option Json

module _ (codec : Codec) where
  -- The arguments of a call, or `None` where they are no JSON text.
  unfoldable pub decode_args : Json → Raises Json
  decode_args (str s) = elim (codec.b64decode s) [
    | none ↦ err value_error
    | some bytes ↦ ok (elim (codec.loads_bytes bytes) [ none ↦ null | some v ↦ v ])
  ]
  decode_args _ = err type_error

  -- `cls(transactions_type=…, access_key=…, args=…, args_raw=…, **action_data)` after the pops.
  unfoldable pub make_action :
      String → Option AccessKey → Json → Json → Fields → Raises ReceiptAction
  unfolding only optional
  make_action kind access_key args args_raw popped =
      let fs = without_key "access_key" (without_key "args" popped) in
      do
        guard (
            only
              ("deposit" ∷ "gas" ∷ "code" ∷ "method_name" ∷ "beneficiary_id" ∷ "public_key"
                ∷ "stake" ∷ "signature" ∷ "delegate_action" ∷ [])
              fs)
        ok (
            receipt_action kind
              (record {
                deposit = optional fs "deposit";
                gas = optional fs "gas";
                code = optional fs "code";
                method_name = optional fs "method_name";
                args = args;
                args_raw = args_raw;
                beneficiary_id = optional fs "beneficiary_id";
                public_key = optional fs "public_key";
                access_key = access_key;
                stake = optional fs "stake";
                signature = optional fs "signature";
              })
              (raw (optional fs "delegate_action")))

  -- The tests of `build` on the type of the action, on the fields of a dict. The delegate action
  -- is handed over as it was built from the dict.
  unfoldable pub build_typed : String → Fields → Raises DelegateValue → Raises ReceiptAction
  unfolding make_action decode_args build_access_key
  build_typed kind fs delegate_action =
      if str_eq kind (type_name ActionType.add_key)
      then (do
        value ← get_item (obj fs) "access_key"
        access_key ← build_access_key value
        make_action kind (some access_key) null null fs)
      else if str_eq kind (type_name ActionType.function_call)
      then (do
        args_raw ← get_item (obj fs) "args"
        args ← decode_args args_raw
        make_action kind none args args_raw fs)
      else if str_eq kind (type_name ActionType.delegate)
      then (do
        delegate ← delegate_action
        signature ← get_item (obj fs) "signature"
        ok (receipt_action kind (record empty { signature = signature }) delegate))
      else make_action kind none null null fs

  -- The same on a value that is no dict: `v["…"]` is a `TypeError`, and so is `pop` of a list.
  build_untyped : String → Bool → Raises ReceiptAction
  build_untyped kind is_list =
      if str_eq kind (type_name ActionType.add_key)
      then err type_error
      else if str_eq kind (type_name ActionType.function_call)
      then err type_error
      else if str_eq kind (type_name ActionType.delegate)
      then err type_error
      else if is_list
      then err type_error
      else err attribute_error

  -- An action that is a text.
  unfoldable pub build_text : String → Raises ReceiptAction
  build_text s =
      if str_eq s "CreateAccount"
      then ok (receipt_action (type_name ActionType.create_account) empty (raw null))
      else err attribute_error

  build_keys : Fields → Raises ReceiptActions
  build_keys end = ok done
  build_keys (field k v fs) = do a ← build_text k; rest ← build_keys fs; ok (next a rest)

  build_chars : String → Raises ReceiptActions
  build_chars String.[] = ok done
  build_chars (String.◌∷◌ c s) = do
    a ← build_text (String.◌∷◌ c String.[])
    rest ← build_chars s
    ok (next a rest)

  -- `cls(actions=actions, **data)` after `del data["actions"]`.
  unfoldable pub make_delegate : ReceiptActions → Fields → Raises DelegateValue
  unfolding delegate_fields
  make_delegate actions fs = do
    fields ← delegate_fields (without_key "actions" fs)
    ok (delegated actions fields)

  unfoldable mutual
    unfolding build_text build_typed build_untyped build_keys build_chars make_delegate

    -- `ReceiptAction.build`
    pub build : Json → Raises ReceiptAction
    build (str s) = build_text s
    build (obj end) = err index_error
    build (obj (field kind action_data fs)) = build_action kind action_data
    build _ = err attribute_error

    build_action : String → Json → Raises ReceiptAction
    build_action kind (obj fs) = build_typed kind fs (find_delegate fs)
    build_action kind (arr vs) = build_untyped kind true
    build_action kind _ = build_untyped kind false

    -- `ReceiptDelegateAction.build(action_data["delegate_action"])`
    find_delegate : Fields → Raises DelegateValue
    find_delegate end = err (key_error "delegate_action")
    find_delegate (field k v fs) =
        let here = build_delegate v in
        let rest = find_delegate fs in if str_eq k "delegate_action" then here else rest

    -- `ReceiptDelegateAction.build`
    pub build_delegate : Json → Raises DelegateValue
    build_delegate (obj fs) = do actions ← find_actions fs; make_delegate actions fs
    build_delegate _ = err type_error

    -- `[ReceiptAction.build(action) for action in data["actions"]]`
    find_actions : Fields → Raises ReceiptActions
    find_actions end = err (key_error "actions")
    find_actions (field k v fs) =
        let here = build_all v in
        let rest = find_actions fs in if str_eq k "actions" then here else rest

    pub build_all : Json → Raises ReceiptActions
    build_all (arr vs) = build_items vs
    build_all (obj fs) = build_keys fs
    build_all (str s) = build_chars s
    build_all _ = err type_error

    pub build_items : Items → Raises ReceiptActions
    build_items nil = ok done
    build_items (cons v vs) = do a ← build v; rest ← build_items vs; ok (next a rest)

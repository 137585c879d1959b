-- ===== src/Models/Delegate/RoundTrip.antt =====
-- Delegate actions that call functions, through the JSON of `bytes_to_json` and `from_bytes` of
-- src/py_near/models.py.
use py_near.Base.{ℕ, ◌^◌, ◌<◌, String, none, some, List, [], ◌∷◌, map, All, ok, ◌≡◌, refl, str_eq}
use py_near.Text.Decimal.{decimal}
use py_near.Python.Decimals.{int-decimal}
use py_near.Json.{
  Json, null, num, str, arr, obj, Items, Fields, end, field, single, of_list, lookup, without_key,
}
use py_near.Python.{int, argument}
use py_near.Models.Keys.{only, optional}
use py_near.Models.Receipt.{
  DelegateFields, ReceiptAction, receipt_action, raw, ReceiptActions, done, next, empty, Payload,
  delegate_fields,
}
use py_near.Models.Actions.{build, build_items, make_action, decode_args}
use py_near.Transactions.{Bytes, NearAction, NearActions, nil, cons, call_function}
use py_near.Models.Delegate.{
  Library, call_action, decoded, pop_item, raw_action, raw_actions, from_json, bytes_to_json,
  from_bytes,
}

-- A function call of a delegate action.
pub record FunctionCall : Type 0 where
  pub method_name : String
  pub args : Bytes
  pub gas : ℕ
  pub deposit : ℕ

-- The fields of a delegate action besides its actions.
pub record Signing : Type 0 where
  pub sender_id : String
  pub receiver_id : String
  pub nonce : ℕ
  pub max_block_height : ℕ
  pub public_key : String

-- The widths of the node's gas and balance.
pub record Fits (c : FunctionCall) : Type 0 where
  pub gas_fits : c.gas < 2 ^ 64
  pub deposit_fits : c.deposit < 2 ^ 128

module _ (b64encode : Bytes → String) where
  abbrev pub call_fields : FunctionCall → Fields
  call_fields c = field "method_name" (str c.method_name) (
      field "args" (str (b64encode c.args))
        (field "gas" (num c.gas) (field "deposit" (str (decimal c.deposit)) end)))

  abbrev pub encoded_call : FunctionCall → Json
  encoded_call c = single "FunctionCall" (obj (call_fields c))

  abbrev pub encoded_calls : List FunctionCall → Items
  encoded_calls calls = of_list (map encoded_call calls)

  -- The JSON of a delegate action, as py_near_primitives writes it.
  abbrev pub encoded : Signing → List FunctionCall → Json
  encoded d calls = obj (
      field "sender_id" (str d.sender_id) (
        field "receiver_id" (str d.receiver_id) (
          field "actions" (arr (encoded_calls calls)) (
            field "nonce" (num d.nonce) (
              field "max_block_height" (num d.max_block_height)
                (field "public_key" (str d.public_key) end))))))

abbrev pub near_call : FunctionCall → NearAction
near_call c = call_function c.method_name c.args c.gas c.deposit

abbrev pub near_calls : List FunctionCall → NearActions
near_calls [] = nil
near_calls (c ∷ calls) = cons (near_call c) (near_calls calls)

abbrev pub read_fields : Signing → DelegateFields
read_fields d = record {
  sender_id = str d.sender_id;
  receiver_id = str d.receiver_id;
  public_key = str d.public_key;
  nonce = num d.nonce;
  max_block_height = num d.max_block_height;
}

module _ (lib : Library) (b64encode : Bytes → String) where
  -- base64 decodes what it encoded, and `FunctionCallAction` takes a text, bytes and numbers of the
  -- widths of gas and balance.
  pub record Documented : Type 0 where
    pub decodes : (bs : Bytes) → lib.codec.b64decode (b64encode bs) ≡ some bs
    pub takes :
        (c : FunctionCall)
        → Fits c
        → lib.function_call_action (str c.method_name) c.args c.gas c.deposit ≡ ok (near_call c)

  module _ (docs : Documented) where
    loaded : FunctionCall → Json
    loaded c = elim (lib.codec.loads_bytes c.args) [ none ↦ null | some v ↦ v ]

    payload : FunctionCall → Payload
    payload c = record empty {
      deposit = str (decimal c.deposit);
      gas = num c.gas;
      method_name = str c.method_name;
      args = loaded c;
      args_raw = str (b64encode c.args);
    }

    receipt : FunctionCall → ReceiptAction
    receipt c = receipt_action "FunctionCall" (payload c) (raw null)

    receipts : List FunctionCall → ReceiptActions
    receipts [] = done
    receipts (c ∷ calls) = next (receipt c) (receipts calls)

    decode_args-b64encode :
        (c : FunctionCall) → decode_args lib.codec (str (b64encode c.args)) ≡ ok (loaded c)
    unfolding decode_args loaded
    decode_args-b64encode c = rw (docs.decodes c.args, decode_args) refl

    build-encoded_call :
        (c : FunctionCall) → build lib.codec (encoded_call b64encode c) ≡ ok (receipt c)
    unfolding build str_eq receipt payload lookup make_action without_key only optional
    build-encoded_call c = rw (decode_args-b64encode c) refl

    build_items-encoded_calls :
        (calls : List FunctionCall)
        → build_items lib.codec (encoded_calls b64encode calls) ≡ ok (receipts calls)
    unfolding build receipts
    build_items-encoded_calls [] = refl
    build_items-encoded_calls (c ∷ calls) =
        rw (build-encoded_call c) (rw (build_items-encoded_calls calls) refl)

    raw_action-receipt : (c : FunctionCall) → Fits c → raw_action lib (receipt c) ≡ ok (near_call c)
    unfolding raw_action str_eq receipt payload int call_action decoded
    raw_action-receipt c fits =
        rw (docs.decodes c.args) (rw (int-decimal c.deposit) (docs.takes c fits))

    raw_actions-receipts :
        (calls : List FunctionCall)
        → All Fits calls
        → raw_actions lib (receipts calls) ≡ ok (near_calls calls)
    unfolding raw_actions receipts
    raw_actions-receipts [] fits = refl
    raw_actions-receipts (c ∷ calls) (fit, fits) =
        rw (raw_action-receipt c fit) (rw (raw_actions-receipts calls fits) refl)

    from_json-encoded :
        (d : Signing) (calls : List FunctionCall)
        → All Fits calls
        → from_json lib (encoded b64encode d calls)
          ≡ ok (record { actions = near_calls calls; fields = read_fields d })
    unfolding from_json build str_eq lookup without_key only pop_item delegate_fields argument
    from_json-encoded d calls fits =
        rw (build_items-encoded_calls calls) (rw (raw_actions-receipts calls fits) refl)

    -- Bytes whose JSON is that of a delegate action which calls functions, whatever the calls are,
    -- with gas below 2 ^ 64 and deposits below 2 ^ 128, are read back as that action: its fields,
    -- and each call in its place with its method, arguments, gas and deposit. Base64 decodes what it
    -- encoded, and `FunctionCallAction` takes such arguments.
    pub from_bytes-encoded :
        (d : Signing) (calls : List FunctionCall) (data' : Bytes) (text : String)
        → All Fits calls
        → lib.delegate_to_json data' ≡ ok text
        → lib.loads text ≡ some (encoded b64encode d calls)
        → from_bytes lib data' ≡ ok (record { actions = near_calls calls; fields = read_fields d })
    unfolding from_bytes bytes_to_json
    from_bytes-encoded d calls data' text fits written read =
        rw written (rw read (from_json-encoded d calls fits))

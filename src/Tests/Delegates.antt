-- ===== src/Tests/Delegates.antt =====
-- Runs of the theorems on `from_bytes` of src/py_near/models.py.
use py_near.Base.{ℕ, ◌^◌, err-ne-ok, ◌<◌, none, some, List, [], ◌∷◌, ok, err, ◌≡◌, refl, ap, arith}
use py_near.Json.{Json, str, Fields}
use py_near.Errors.Exception.{Raises, type_error}
use py_near.Models.Receipt.{ReceiptActions}
use py_near.Models.Actions.{build_all}
use py_near.Transactions.{Bytes, NearAction, full_access, call_function, delegate}
use py_near.Transactions
use py_near.Tests.Encoding.{written, read_from, read_from-written}
use py_near.Models.Delegate.{
  Library, primitive, dataclass, KeyArgument, from_bytes, bytes_to_json, pop_item,
}
use py_near.Models.Delegate.RoundTrip.{
  FunctionCall, Signing, Fits, encoded, near_calls, read_fields, Documented, from_bytes-encoded,
}
use py_near.Models.Delegate.Refusals.{Delegated, TakesNoDataclass, from_bytes-Delegated}

-- Any JSON text is read as this delegate action.
abbrev signing : Signing
signing = record {
  sender_id = "alice.near";
  receiver_id = "bob.near";
  nonce = 7;
  max_block_height = 1009;
  public_key = "ed25519:key";
}

abbrev calls : List FunctionCall
calls = record { method_name = "ft_transfer"; args = 3 ∷ 0 ∷ []; gas = 300; deposit = 1 } ∷ []

take_key : KeyArgument → Raises NearAction
take_key (primitive nonce permission) = ok (Transactions.add_key [] nonce permission)
take_key (dataclass nonce) = err type_error

take_call : Json → Bytes → ℕ → ℕ → Raises NearAction
take_call (str m) args gas deposit = ok (call_function m args gas deposit)
take_call _ args gas deposit = err type_error

abbrev lib : Library
lib = record {
  b58decode = λ v. ok [];
  codec = record { b64decode = λ s. some (read_from 0 s); loads_bytes = λ bytes. none };
  loads = λ s. some (encoded written signing calls);
  delegate_to_json = λ bytes. ok "delegate";
  function_call_action = take_call;
  function_call_permission = λ receiver methods allowance. ok full_access;
  access_key = λ nonce permission. ok (0, permission);
  add_key_action = λ bpk ak. take_key ak;
  delegate_action = λ sender receiver actions nonce height key. ok (delegate "" "" actions 0 0 key);
  nep461_hash = λ d. [];
}

lib-Documented : Documented lib written
unfolding take_call
lib-Documented = record { decodes = λ bs. ap some (read_from-written bs); takes = λ c fits. refl }

abbrev fitting : (c : FunctionCall) → c.gas < 2 ^ 64 → c.deposit < 2 ^ 128 → Fits c
fitting c g d = record { gas_fits = g; deposit_fits = d }

from_bytes-encoded_example :
    from_bytes lib (1 ∷ [])
    ≡ ok (record { actions = near_calls calls; fields = read_fields signing })
from_bytes-encoded_example =
    from_bytes-encoded lib written lib-Documented signing calls (1 ∷ []) "delegate"
      (fitting _ (omega arith) (omega arith), tt) refl refl

lib-TakesNoDataclass : TakesNoDataclass lib
unfolding take_key
lib-TakesNoDataclass bpk nonce action h = err-ne-ok h

from_bytes-Delegated_example :
    (read : Json) × (v : Json) × (fs : Fields) × (actions : ReceiptActions) × (bytes_to_json lib
        (1 ∷ [])
      ≡ ok read)
    × (pop_item read "actions" ≡ ok (v, fs))
    × (build_all lib.codec v ≡ ok actions)
    × Delegated lib actions (near_calls calls)
from_bytes-Delegated_example =
    from_bytes-Delegated lib (1 ∷ [])
      (record { actions = near_calls calls; fields = read_fields signing }) lib-TakesNoDataclass
      (from_bytes-encoded lib written lib-Documented signing calls (1 ∷ []) "delegate"
        (fitting _ (omega arith) (omega arith), tt) refl refl)

-- ===== src/Account/Answers.antt =====
-- How `Account` of src/py_near/account.py reads the answers of its provider.
use py_near.Base.{
  ℕ, String, true, false, List, [], ◌∷◌, ok, err, ◌>>=◌, or_raise, if◌then◌else◌, str_eq,
}
use py_near.Json.{Json, arr, obj, Fields, field, end, to_list, truthy}
use py_near.Python.{contains, get_item, int, iterate, number_of}
use py_near.Errors.Exception.{Raises, value_error, type_error, view_function_error}
use py_near.Models.Keys.{
  AccountAccessKey, account_access_key, PublicKey, public_key_of, ViewFunctionResult,
  view_function_result,
}
use py_near.Transactions.{Primitives}

unfoldable pub public_keys : List Json → Raises (List PublicKey)
public_keys [] = ok []
public_keys (key ∷ rest) = do k ← public_key_of key; ks ← public_keys rest; ok (k ∷ ks)

-- `get_access_key_list` from the response on.
unfoldable pub listed_keys : Json → Raises (List PublicKey)
unfolding public_keys
listed_keys resp = do
  has_keys ← contains "keys" resp
  if has_keys
      then (do
        value ← get_item resp "keys"
        elim value [ arr keys ↦ public_keys (to_list keys) | _ ↦ ok [] ])
      else ok []

-- `get_balance` from the response on.
unfoldable pub balance_of : Json → Raises ℕ
balance_of data' = if truthy data' then (do amount ← get_item data' "amount"; int amount) else ok 0

-- `get_access_key` from the response on.
unfoldable pub access_key_of : Json → Raises AccountAccessKey
access_key_of resp = do
  failed ← contains "error" resp
  if failed then (do e ← get_item resp "error"; err value_error) else account_access_key resp

-- `[chr(x) for x in …]` of a value that is no list of numbers raises.
unfoldable pub numbers : List Json → Raises (List ℕ)
numbers [] = ok []
numbers (v ∷ rest) = do n ← number_of v; ns ← numbers rest; ok (n ∷ ns)

-- `result[key] = value`
unfoldable pub set_field : String → Json → Fields → Fields
set_field key value end = field key value end
set_field key value (field k v fs) = elim (str_eq k key) [
  | true ↦ field k value fs
  | false ↦ field k v (set_field key value fs)
]

-- `status["sync_info"][key]`
unfoldable pub sync_value : String → Json → Raises Json
sync_value key status = do info ← get_item status "sync_info"; get_item info key

module _ (prim : Primitives) where
  -- `view_function` from the response on.
  unfoldable pub viewed : Json → Raises ViewFunctionResult
  unfolding numbers set_field
  viewed result = do
    failed ← contains "error" result
    if failed then (do e ← get_item result "error"; err (view_function_error e)) else (do
      codes ← get_item result "result"
      values ← iterate codes
      chars ← numbers values
      parsed ← or_raise (prim.loads_chars chars) value_error
      elim result [
        | obj fs ↦ view_function_result (obj (set_field "result" parsed fs))
        | _ ↦ err type_error
      ])

-- ===== src/Provider/Response.antt =====
-- `get_error_from_response` of src/py_near/providers.py.
pub mod Nested
pub mod Codes
pub mod Announced
use py_near.Base.{String, Option, none, some, [], ◌∷◌, ok, err, ◌>>=◌, if◌then◌else◌}
use py_near.Json.{Json, str, arr, obj, end, field}
use py_near.Python.{contains, get_item, get_or}
use py_near.Errors.Classes.{
  ErrorClass, Table, find_class, error_code_to_exception, unknown_block_error, invalid_account,
  unknown_account, no_contract_code_error, too_large_contract_state_error, unavailable_shard_error,
  no_synced_blocks_error, internal_error, no_synced_yet_error, invalid_transaction_error,
  rpc_timeout_error, unknown_access_key_error,
}
use py_near.Errors.Exception.{ProviderError, Raises, type_error}
use py_near.Errors.Build.{build}

abbrev pub provider_code_to_exception : Table
provider_code_to_exception =
    ("UNKNOWN_BLOCK", unknown_block_error)
    ∷ ("INVALID_ACCOUNT", invalid_account)
    ∷ ("UNKNOWN_ACCOUNT", unknown_account)
    ∷ ("NO_CONTRACT_CODE", no_contract_code_error)
    ∷ ("TOO_LARGE_CONTRACT_STATE", too_large_contract_state_error)
    ∷ ("UNAVAILABLE_SHARD", unavailable_shard_error)
    ∷ ("NO_SYNCED_BLOCKS", no_synced_blocks_error)
    ∷ ("INTERNAL_ERROR", internal_error)
    ∷ ("NOT_SYNCED_YET", no_synced_yet_error)
    ∷ ("INVALID_TRANSACTION", invalid_transaction_error)
    ∷ ("TIMEOUT_ERROR", rpc_timeout_error)
    ∷ ("UNKNOWN_ACCESS_KEY", unknown_access_key_error)
    ∷ []

abbrev pub class_or_internal : Option ErrorClass → ErrorClass
class_or_internal none = internal_error
class_or_internal (some c) = c

-- `PROVIDER_CODE_TO_EXCEPTION.get(error_code, InternalError)`: a list or a dict has no hash.
unfoldable pub code_class : Json → Raises ErrorClass
code_class (str code) = ok (class_or_internal (find_class code provider_code_to_exception))
code_class (arr vs) = err type_error
code_class (obj fs) = err type_error
code_class _ = ok internal_error

-- `isinstance(body, str) and body in ERROR_CODE_TO_EXCEPTION`
abbrev pub named_class : Json → Option ErrorClass
named_class (str s) = find_class s error_code_to_exception
named_class _ = none

module _ (loads : String → Option Json) where
  -- The `while True` loop, with `error` as it is so far. A body of one field that names a class is
  -- opened; a text under it that names a class too ends the walk.
  unfoldable pub descend : Json → ProviderError → Json → Raises ProviderError
  descend error_json error (obj (field key inner end)) =
      elim (find_class key error_code_to_exception) [
        | none ↦ ok error
        | some c ↦ elim (named_class inner) [
          | some c' ↦ build loads c' (obj end) error_json
          | none ↦ do error' ← build loads c inner error_json; descend error_json error' inner
        ]
      ]
  descend error_json error _ = ok error

  -- `get_error_from_response`
  unfoldable pub get_error_from_response : Json → Raises (Option ProviderError)
  get_error_from_response content = do
    failed ← contains "error" content
    if failed
        then (do
          error_json ← get_item content "error"
          cause ← get_or error_json "cause" (obj end)
          error_code ← get_or cause "name" (str "")
          body ← get_item error_json "data"
          c ← code_class error_code
          error ← build loads c body error_json
          deepest ← descend error_json error body
          ok (some deepest))
        else ok none

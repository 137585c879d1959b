-- ===== src/Errors/Exception.antt =====
-- The exceptions that the code raises or lets through, as values.
use py_near.Base.{String, Bool, false, Option, Result}
use py_near.Json.{Json, Fields}
use py_near.Errors.Classes.{ErrorClass, is_subclass}

-- An instance of a class below `TxExecutionError`, as `ActionError.kind` holds it.
pub record ActionKind : Type 0 where
  pub class : ErrorClass
  pub attributes : Fields

-- An instance of a class of provider.py: `attributes` are those that `setattr` wrote, `index` and
-- `kind` those of an `ActionError`. An `error_json` of `None` is `null`.
pub record ProviderError : Type 0 where
  pub class : ErrorClass
  pub error_json : Json
  pub attributes : Fields
  pub index : Json
  pub kind : Option ActionKind

pub data Exception : Type 0 where
  provider : ProviderError → Exception
  rpc_not_available rpc_empty_response : Exception
  view_function_error : Json → Exception
  -- Python's own; `value_error` is also what `json.loads` raises on a text that it cannot read.
  key_error : String → Exception
  type_error attribute_error index_error value_error : Exception
  -- `Exception("Undelegeted action type")`
  undelegated_action : Exception
  -- What the HTTP client raises: no connection, a timeout.
  http_error : Exception

abbrev pub Raises : Type 0 → Type 0
Raises = Result Exception

-- `except c` for a class of provider.py.
unfoldable pub caught_by : ErrorClass → Exception → Bool
caught_by c (provider e) = is_subclass e.class c
caught_by c _ = false

-- ===== src/Errors/Build.antt =====
-- The constructors of src/py_near/exceptions/provider.py.
use py_near.Base.{String, Option, none, some, ok, err, ◌>>=◌, or_raise, if◌then◌else◌}
use py_near.Json.{Json, null, str, obj, Fields, end, lookup}
use py_near.Python.{get_or, get_item, first_item}
use py_near.Errors.Classes.{
  ErrorClass, tx_execution_error, action_error, is_subclass, class_eq, find_class,
  action_error_kinds,
}
use py_near.Errors.Exception.{
  ActionKind, ProviderError, Raises, key_error, attribute_error, value_error,
}

-- `json.loads` reads a text or raises.
module _ (loads : String → Option Json) where
  -- `if isinstance(data, str): data = json.loads(data)`
  unfoldable pub decoded : Json → Raises Json
  decoded (str s) = or_raise (loads s) value_error
  decoded data' = ok data'

  -- `TxExecutionError.__init__` with no keyword arguments: each field becomes an attribute.
  -- Only a dict has `update`.
  unfoldable pub tx_attributes : Json → Raises Fields
  unfolding decoded
  tx_attributes body = do
    value ← decoded body
    elim value [ obj fs ↦ ok fs | _ ↦ err attribute_error ]

  -- `_ACTION_ERROR_KINDS[key](value)`
  unfoldable pub action_kind : String → Json → Raises ActionKind
  unfolding tx_attributes
  action_kind key value = do
    class ← or_raise (find_class key action_error_kinds) (key_error key)
    attributes ← tx_attributes value
    ok (record { class = class; attributes = attributes })

  -- `ActionError.__init__`
  unfoldable pub init_action_error : Json → Json → Raises ProviderError
  unfolding decoded action_kind
  init_action_error body error_json = do
    value ← decoded body
    index ← get_or value "index" null
    kind ← get_item value "kind"
    (key, arguments) ← first_item kind
    made ← action_kind key arguments
    ok (record {
      class = action_error;
      error_json = error_json;
      attributes = end;
      index = index;
      kind = some made;
    })

  -- A field `error_json` takes the place of the attribute that was set before.
  unfoldable pub own_error_json : Fields → Json → Json
  own_error_json fs error_json = elim (lookup "error_json" fs) [ none ↦ error_json | some v ↦ v ]

  -- `c(body, error_json=error_json)`
  unfoldable pub build : ErrorClass → Json → Json → Raises ProviderError
  unfolding tx_attributes init_action_error own_error_json
  build c body error_json =
      if class_eq c action_error
      then init_action_error body error_json
      else if is_subclass c tx_execution_error
      then (do
        attributes ← tx_attributes body
        ok (record {
          class = c;
          error_json = own_error_json attributes error_json;
          attributes = attributes;
          index = null;
          kind = none;
        }))
      else ok (record {
        class = c;
        error_json = error_json;
        attributes = end;
        index = null;
        kind = none;
      })

-- ===== src/Provider/Response/Announced.antt =====
-- The attributes of the exception that `get_error_from_response` of src/py_near/providers.py finds.
use py_near.Base.{String, false, Option, none, some, List, Memᴰ, ok, ◌≡◌, refl, ◌∙◌}
use py_near.Json.{Json, null, obj, Fields, single, lookup}
use py_near.Errors.Classes.{
  ErrorClass, find_class, error_code_to_exception, class_eq, action_error, json_provider_error,
}
use py_near.Errors.Classes.Annotations.{annotations, annotated-below}
use py_near.Errors.Exception.{ProviderError}
use py_near.Errors.Build.{build, own_error_json}
use py_near.Provider.Response.{descend}
use py_near.Provider.Response.Nested.{opened_by, nested, IsChain, descend_innermost}

module _ (loads : String → Option Json) (error_json : Json) where
  abbrev found : ErrorClass → Fields → ProviderError
  found c fs = record {
    class = c;
    error_json = own_error_json loads fs error_json;
    attributes = fs;
    index = null;
    kind = none;
  }

  build-announcing :
      (c : ErrorClass) (name : String) (fs : Fields)
      → Memᴰ name (annotations c)
      → class_eq c action_error ≡ false
      → class_eq c json_provider_error ≡ false
      → build loads c (obj fs) error_json ≡ ok (found c fs)
  unfolding build
  build-announcing c name fs m h k = rw h (rw (annotated-below c name m h k) refl)

  -- Through any chain of known classes the walk ends in the exception of the innermost dict that
  -- opens no further. If its class announces an attribute in its body, and is not the class of all
  -- or `ActionError`, the exception is of that class, has the whole error object unless the
  -- innermost dict has an `error_json`, and has under each name what the innermost dict has there.
  pub descend_announced :
      (chain : List (String × ErrorClass)) (key name : String) (c : ErrorClass) (fs : Fields)
      (error : ProviderError)
      → IsChain chain
      → find_class key error_code_to_exception ≡ some c
      → opened_by (obj fs) ≡ none
      → Memᴰ name (annotations c)
      → class_eq c action_error ≡ false
      → class_eq c json_provider_error ≡ false
      → (e : ProviderError) × (descend loads error_json error (nested chain (single key (obj fs)))
          ≡ ok e)
        × (e.class ≡ c)
        × (e.error_json ≡ own_error_json loads fs error_json)
        × (lookup name e.attributes ≡ lookup name fs)
  descend_announced chain key name c fs error k known stops m h h' = (
    found c fs,
    descend_innermost loads error_json chain key c (obj fs) error k known refl stops
        ∙ build-announcing c name fs m h h',
    refl,
    refl,
    refl,
  )

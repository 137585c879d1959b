-- ===== src/Provider/Response/Codes.antt =====
-- The exception that `get_error_from_response` of src/py_near/providers.py makes of an error code.
use py_near.Base.{
  String, true, false, Option, none, some, [], ◌∷◌, ok, ◌≡◌, refl, All, Bool-cases, inl, inr,
  str_eq,
}
use py_near.Json.{Json, null, str, obj, Fields, end, lookup, has_key}
use py_near.Python.{contains, get_item, get_or}
use py_near.Errors.Classes.{
  ErrorClass, Table, find_class, class_eq, is_subclass, action_error, tx_execution_error,
}
use py_near.Errors.Exception.{ProviderError}
use py_near.Errors.Build.{build}
use py_near.Provider.Response.{
  provider_code_to_exception, class_or_internal, code_class, get_error_from_response,
}
use py_near.Provider.Response.Nested.{opened_by, descend-stops}

-- A class whose constructor takes any body.
abbrev IsPlain : ErrorClass → Type 0
IsPlain c = (class_eq c action_error ≡ false) × (is_subclass c tx_execution_error ≡ false)

find-IsPlain :
    (key : String) (t : Table)
    → All (λ e. IsPlain e.1) t
    → IsPlain (class_or_internal (find_class key t))
unfolding find_class class_eq is_subclass
find-IsPlain key [] h = (refl, refl)
find-IsPlain key ((k, c) ∷ t) h = elim (Bool-cases (str_eq k key)) [
  | inl hit ↦ rw hit h.0
  | inr miss ↦ rw miss (find-IsPlain key t h.1)
]

codes-IsPlain : All (λ e. IsPlain e.1) provider_code_to_exception
unfolding class_eq is_subclass
codes-IsPlain = (
  (refl, refl),
  (
    (refl, refl),
    (
      (refl, refl),
      (
        (refl, refl),
        (
          (refl, refl),
          (
            (refl, refl),
            (
              (refl, refl),
              ((refl, refl), ((refl, refl), ((refl, refl), ((refl, refl), ((refl, refl), tt))))),
            ),
          ),
        ),
      ),
    ),
  ),
)

-- The exception of a code, with the error object kept.
abbrev pub coded : String → Json → ProviderError
coded code error_json = record {
  class = class_or_internal (find_class code provider_code_to_exception);
  error_json = error_json;
  attributes = end;
  index = null;
  kind = none;
}

module _ (loads : String → Option Json) where
  build-coded :
      (code : String) (body error_json : Json)
      → build loads (class_or_internal (find_class code provider_code_to_exception)) body error_json
        ≡ ok (coded code error_json)
  unfolding build
  build-coded code body error_json =
      let (a, b) = find-IsPlain code provider_code_to_exception codes-IsPlain in rw a (rw b)

  -- An error object with a cause and with data that open no further gives the exception of its
  -- code, an `InternalError` for a code that the table does not have.
  pub error_of_code :
      (fs error_fs cause_fs : Fields) (code : String) (body : Json)
      → lookup "error" fs ≡ some (obj error_fs)
      → lookup "cause" error_fs ≡ some (obj cause_fs)
      → lookup "name" cause_fs ≡ some (str code)
      → lookup "data" error_fs ≡ some body
      → opened_by body ≡ none
      → get_error_from_response loads (obj fs) ≡ ok (some (coded code (obj error_fs)))
  unfolding get_error_from_response contains get_item get_or has_key code_class
  error_of_code fs error_fs cause_fs code body e c n d stops =
      let present : has_key "error" fs ≡ true = rw (e, has_key) in
      rw e (
        rw c (
          rw n (
            rw d (
              rw (build-coded code body (obj error_fs)) (
                rw (descend-stops loads (obj error_fs) (coded code (obj error_fs)) body stops)
                  (rw present))))))

  -- Without the key `error` there is no exception.
  pub no_error :
      (content : Json)
      → contains "error" content ≡ ok false
      → get_error_from_response loads content ≡ ok none
  unfolding get_error_from_response
  no_error content h = rw h

-- ===== src/Provider/Response/Nested.antt =====
-- Which exception `get_error_from_response` of src/py_near/providers.py finds.
use py_near.Base.{
  String, false, Option, none, some, List, [], ◌∷◌, ok, err, ◌>>=◌, ◌≡◌, refl, ◌∙◌, All, Bool-cases,
  inl, inr,
}
use py_near.Json.{Json, null, str, obj, Fields, end, field, single}
use py_near.Errors.Classes.{
  ErrorClass, find_class, error_code_to_exception, class_eq, is_subclass, action_error,
  tx_execution_error,
}
use py_near.Errors.Exception.{ProviderError, Raises}
use py_near.Errors.Build.{build, own_error_json}
use py_near.Provider.Response.{named_class, descend}

-- The class that the walk opens a body by, if it does.
abbrev pub opened_by : Json → Option ErrorClass
opened_by (obj (field key inner end)) = find_class key error_code_to_exception
opened_by _ = none

-- A body inside dicts of one field each, the outermost first.
abbrev pub nested : List (String × ErrorClass) → Json → Json
nested [] body = body
nested ((key, c) ∷ chain) body = single key (nested chain body)

-- Each key names its class, and none is `ActionError`, whose own fields end the walk.
abbrev pub IsChain : List (String × ErrorClass) → Type 0
IsChain =
    All
      λ e. (find_class e.0 error_code_to_exception ≡ some e.1) × (class_eq e.1 action_error ≡ false)

module _ (loads : String → Option Json) (error_json : Json) where
  simple : ErrorClass → Fields → ProviderError
  simple c fs = record {
    class = c;
    error_json = error_json;
    attributes = fs;
    index = null;
    kind = none;
  }

  of_dict : ErrorClass → Fields → ProviderError
  of_dict c fs = record {
    class = c;
    error_json = own_error_json loads fs error_json;
    attributes = fs;
    index = null;
    kind = none;
  }

  -- Every class but `ActionError` is made from any dict.
  pub build_of_dict :
      (c : ErrorClass) (fs : Fields)
      → class_eq c action_error ≡ false
      → (e : ProviderError) × (build loads c (obj fs) error_json ≡ ok e) × (e.class ≡ c)
  unfolding build simple of_dict
  build_of_dict c fs h = elim (Bool-cases (is_subclass c tx_execution_error)) [
    | inl t ↦ (of_dict c fs, rw h (rw t), refl)
    | inr f ↦ (simple c end, rw h (rw f), refl)
  ]

  pub descend-stops :
      (error : ProviderError) (body : Json)
      → opened_by body ≡ none
      → descend loads error_json error body ≡ ok error
  unfolding descend
  descend-stops error (obj (field key inner end)) h =
      let e : find_class key error_code_to_exception ≡ none = h in rw (e, descend)
  descend-stops error _ h = refl

  descend-opens :
      (error : ProviderError) (key : String) (c : ErrorClass) (inner : Json)
      → find_class key error_code_to_exception ≡ some c
      → named_class inner ≡ none
      → descend loads error_json error (single key inner)
        ≡ (build loads c inner error_json >>= λ error'. descend loads error_json error' inner)
  unfolding descend
  descend-opens error key c inner h n = rw (h, descend) (rw n)

  descend-names :
      (error : ProviderError) (key : String) (c c' : ErrorClass) (inner : Json)
      → find_class key error_code_to_exception ≡ some c
      → named_class inner ≡ some c'
      → descend loads error_json error (single key inner) ≡ build loads c' (obj end) error_json
  unfolding descend
  descend-names error key c c' inner h n = rw (h, descend) (rw n)

  -- One dict of a chain is opened.
  descend-link :
      (key : String) (c : ErrorClass) (inner : Json) (fs : Fields) (r : Raises ProviderError)
      → find_class key error_code_to_exception ≡ some c
      → class_eq c action_error ≡ false
      → inner ≡ obj fs
      → ((error : ProviderError) → descend loads error_json error inner ≡ r)
      → (error : ProviderError) → descend loads error_json error (single key inner) ≡ r
  descend-link key c inner fs r known plain e h error =
      let (made, p, _) = build_of_dict c fs plain in
      let p' : build loads c inner error_json ≡ ok made = rw e p in
      descend-opens error key c inner known (rw e) ∙ rw p' (h made)

  nested-obj :
      (chain : List (String × ErrorClass)) (fs : Fields)
      → (fs' : Fields) × (nested chain (obj fs) ≡ obj fs')
  nested-obj [] fs = (fs, refl)
  nested-obj ((key, c) ∷ chain) fs = (field key (nested chain (obj fs)) end, refl)

  descend-chain :
      (chain : List (String × ErrorClass)) (fs : Fields) (r : Raises ProviderError)
      → IsChain chain
      → ((error : ProviderError) → descend loads error_json error (obj fs) ≡ r)
      → (error : ProviderError) → descend loads error_json error (nested chain (obj fs)) ≡ r
  descend-chain [] fs r k h error = h error
  descend-chain ((key, c) ∷ chain) fs r k h error =
      let (fs', e) = nested-obj chain fs in
      descend-link key c (nested chain (obj fs)) fs' r k.0.0 k.0.1 e
        (descend-chain chain fs r k.1 h) error

  -- Through any chain of known classes the walk ends in the exception of the innermost dict: its
  -- class, made from the body under it, when that body opens no further.
  pub descend_innermost :
      (chain : List (String × ErrorClass)) (key : String) (c : ErrorClass) (body : Json)
      (error : ProviderError)
      → IsChain chain
      → find_class key error_code_to_exception ≡ some c
      → named_class body ≡ none
      → opened_by body ≡ none
      → descend loads error_json error (nested chain (single key body))
        ≡ build loads c body error_json
  descend_innermost chain key c body error k known plain stops =
      descend-chain chain (field key body end) _ k
        (λ e. descend-opens e key c body known plain ∙ returned (build loads c body error_json))
        error
    where
      returned : (r : Raises ProviderError) → (r >>= λ e. descend loads error_json e body) ≡ r
      returned (ok e) = descend-stops e body stops
      returned (err e) = refl

  -- A text that names a class stands for that class with an empty body, such as
  -- `{"InvalidTxError": "Expired"}`.
  pub descend_named :
      (chain : List (String × ErrorClass)) (key : String) (c c' : ErrorClass) (s : String)
      (error : ProviderError)
      → IsChain chain
      → find_class key error_code_to_exception ≡ some c
      → find_class s error_code_to_exception ≡ some c'
      → descend loads error_json error (nested chain (single key (str s)))
        ≡ build loads c' (obj end) error_json
  descend_named chain key c c' s error k known named =
      descend-chain chain (field key (str s) end) _ k
        (λ e. descend-names e key c c' (str s) known named) error

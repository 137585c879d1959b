-- ===== src/Models/Keys.antt =====
-- `AccessKey`, `PublicKey`, `AccountAccessKey` and `ViewFunctionResult` of src/py_near/models.py.
-- Of the two classes `AccessKey` of the file the second one stands, with its defaults.
use py_near.Base.{
  String, Bool, true, false, ◌&&◌, none, some, List, [], ◌∷◌, any, ok, err, ◌>>=◌, ◌>>◌, str_eq,
  if◌then◌else◌,
}
use py_near.Json.{Json, null, str, Fields, end, field, lookup}
use py_near.Python.{get_item, first_item, keywords, argument}
use py_near.Errors.Exception.{Raises, type_error}

-- Every keyword names a parameter.
unfoldable pub only : List String → Fields → Bool
only parameters end = true
only parameters (field k v fs) = any (λ p. str_eq p k) parameters && only parameters fs

abbrev pub guard : Bool → Raises (Unit {0})
guard true = ok tt
guard false = err type_error

-- A keyword argument with the default `None`.
unfoldable pub optional : Fields → String → Json
optional fs key = elim (lookup key fs) [ none ↦ null | some v ↦ v ]

abbrev pub is_text : String → Json → Bool
is_text s (str t) = str_eq t s
is_text s _ = false

pub data PermissionType : Type 0 where
  full_access function_call : PermissionType

pub record AccessKey : Type 0 where
  pub permission_type : PermissionType
  pub nonce : Json
  pub allowance : Json
  pub receiver_id : Json
  pub method_names : Json

-- `AccessKey.build`
unfoldable pub build_access_key : Json → Raises AccessKey
unfolding get_item first_item keywords only optional
build_access_key d = do
  permission ← get_item d "permission"
  if is_text "FullAccess" permission
      then (do
        nonce ← get_item d "nonce"
        ok (record {
          permission_type = full_access;
          nonce = nonce;
          allowance = null;
          receiver_id = null;
          method_names = null;
        }))
      else (do
        (_, permission_data) ← first_item permission
        nonce ← get_item d "nonce"
        fs ← keywords permission_data
        guard (only ("allowance" ∷ "receiver_id" ∷ "method_names" ∷ []) fs)
        ok (record {
          permission_type = function_call;
          nonce = nonce;
          allowance = optional fs "allowance";
          receiver_id = optional fs "receiver_id";
          method_names = optional fs "method_names";
        }))

-- `PublicKey(**key)` keeps the access key as the dict that it is.
pub record PublicKey : Type 0 where
  pub public_key : Json
  pub access_key : Json

unfoldable pub public_key_of : Json → Raises PublicKey
unfolding keywords argument only
public_key_of v = do
  fs ← keywords v
  guard (only ("public_key" ∷ "access_key" ∷ []) fs)
  public_key ← argument fs "public_key"
  access_key ← argument fs "access_key"
  ok (record { public_key = public_key; access_key = access_key })

-- `AccountAccessKey(**resp)`
pub record AccountAccessKey : Type 0 where
  pub block_hash : Json
  pub block_height : Json
  pub nonce : Json
  pub permission : Json

unfoldable pub account_access_key : Json → Raises AccountAccessKey
unfolding keywords argument only
account_access_key v = do
  fs ← keywords v
  guard (only ("block_hash" ∷ "block_height" ∷ "nonce" ∷ "permission" ∷ []) fs)
  block_hash ← argument fs "block_hash"
  block_height ← argument fs "block_height"
  nonce ← argument fs "nonce"
  permission ← argument fs "permission"
  ok (record {
    block_hash = block_hash;
    block_height = block_height;
    nonce = nonce;
    permission = permission;
  })

-- `ViewFunctionResult(**result)`
pub record ViewFunctionResult : Type 0 where
  pub block_hash : Json
  pub block_height : Json
  pub logs : Json
  pub result : Json

unfoldable pub view_function_result : Json → Raises ViewFunctionResult
unfolding keywords argument only
view_function_result v = do
  fs ← keywords v
  guard (only ("block_height" ∷ "logs" ∷ "result" ∷ "block_hash" ∷ []) fs)
  block_height ← argument fs "block_height"
  logs ← argument fs "logs"
  result ← argument fs "result"
  ok (record {
    block_hash = elim (lookup "block_hash" fs) [ none ↦ str "" | some h ↦ h ];
    block_height = block_height;
    logs = logs;
    result = result;
  })

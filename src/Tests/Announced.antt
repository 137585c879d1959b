-- ===== src/Tests/Announced.antt =====
-- Runs of the theorems on the attributes of exceptions, and on a node that is syncing.
use py_near.Base.{
  ◌+◌, ◌≤◌, ◌-◌, String, true, some, List, [], ◌∷◌, All, Memᴰ, ok, ◌≡◌, refl, ◌↔◌, str_eq,
}
use py_near.Json.{Json, null, bool, str, obj, Fields, field, end, single, lookup}
use py_near.Python.{get_item}
use py_near.Errors.Classes.{ErrorClass, tx_execution_error, invalid_tx_error, invalid_nonce}
use py_near.Errors.Exception.{ProviderError}
use py_near.Errors.Kinds.{construct, delete_key_does_not_exist_error, KindError}
use py_near.Errors.Kinds.Annotations.{Announced, annotations, construct-Announced}
use py_near.Provider.Network.{Network, replied}
use py_near.Provider.Health.{max_lag, is_available}
use py_near.Provider.Health.Zone.{Syncing, is_available-Zoned}
use py_near.Provider.Response.{descend}
use py_near.Provider.Response.Codes.{coded}
use py_near.Provider.Response.Nested.{nested}
use py_near.Provider.Response.Announced.{descend_announced}
use py_near.Tests.Fixtures.{net}

abbrev chain : List (String × ErrorClass)
chain = ("TxExecutionError", tx_execution_error) ∷ ("InvalidTxError", invalid_tx_error) ∷ []

abbrev nonces : Fields
nonces = field "tx_nonce" (str "7") (field "ak_nonce" (str "9") end)

descend_announced_example :
    (e : ProviderError) × (descend
        (net.loads)
        null
        (coded "INVALID_TRANSACTION" null)
        (nested chain (single "InvalidNonce" (obj nonces)))
      ≡ ok e)
    × (e.class ≡ invalid_nonce)
    × (e.error_json ≡ null)
    × (lookup "ak_nonce" e.attributes ≡ lookup "ak_nonce" nonces)
unfolding py_near.Errors.Classes.find_class py_near.Errors.Classes.class_eq str_eq
    py_near.Errors.Classes.Annotations.annotations py_near.Errors.Classes.ErrorClass-discrete
    py_near.Errors.Build.own_error_json lookup
descend_announced_example =
    descend_announced (net.loads) null chain "InvalidNonce" "ak_nonce" invalid_nonce nonces
      (coded "INVALID_TRANSACTION" null) ((refl, refl), ((refl, refl), tt)) refl refl
      (Memᴰ.tail (Memᴰ.head refl)) refl refl

abbrev deleted : Fields
deleted = field "public_key" (str "ed25519:key") (field "account_id" (str "bob.near") end)

abbrev key_error : KindError
key_error = record {
  class = delete_key_does_not_exist_error;
  attributes = field "account_id" (str "bob.near") (field "actor_id" (str "ed25519:key") end);
}

construct-Announced_example :
    All
      (Announced (net.loads) delete_key_does_not_exist_error deleted key_error)
      (annotations delete_key_does_not_exist_error)
unfolding py_near.Errors.Kinds.signature construct py_near.Errors.Kinds.assign lookup str_eq
construct-Announced_example =
    construct-Announced (net.loads) delete_key_does_not_exist_error
      (("account_id", "account_id") ∷ ("public_key", "actor_id") ∷ []) deleted end key_error refl
      refl

-- A clock of a machine whose local time is an hour ahead of UTC, and a node that is syncing.
abbrev status : Json
status = single "result" (
    single "sync_info"
      (obj (field "syncing" (bool true) (field "latest_block_time" (str "noon") end))))

abbrev eastern : Network
eastern = record net {
  utcnow = λ w. 9_000_000_000;
  as_local = λ t. t - 3_600_000_000;
  loads = λ s. some status;
  fromisoformat = λ s. some 5_500_000_000;
}

behind : Syncing eastern "status" 5_500_000_000
unfolding get_item lookup str_eq py_near.Json.truthy
behind = record {
  content = status;
  result =
      single "sync_info"
        (obj (field "syncing" (bool true) (field "latest_block_time" (str "noon") end)));
  sync_info = obj (field "syncing" (bool true) (field "latest_block_time" (str "noon") end));
  syncing = bool true;
  time = "noon";
  is_json = refl;
  has_result = refl;
  has_sync_info = refl;
  has_syncing = refl;
  is_syncing = refl;
  has_time = refl;
  is_time = refl;
}

is_available-Zoned_example :
    (is_available eastern (replied 200 "status") [] ≡ ok true)
    ↔ (9_000_000_000 + 0 ≤ 5_500_000_000 + max_lag + 3_600_000_000)
is_available-Zoned_example =
    is_available-Zoned eastern "status" 5_500_000_000 0 3_600_000_000 [] refl behind

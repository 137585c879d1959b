-- ===== src/Provider/Queries.antt =====
-- The query methods of `JsonProvider` of src/py_near/providers.py.
use py_near.Base.{ℕ, String, false, Option, none, some, str_eq, ◌==◌, if◌then◌else◌}
use py_near.Json.{Json, null, num, str, obj, Fields, end, field}
use py_near.Provider.Network.{Network}
use py_near.Provider.Client.{JsonProvider, Io}
use py_near.Provider.Rpc.{json_rpc, one}

-- The parameters of the calls, as the methods build them.
unfoldable pub account_query : String → String → String → Fields
account_query request_type account_id finality =
    field "request_type" (str request_type)
      (field "account_id" (str account_id) (field "finality" (str finality) end))

unfoldable pub access_key_query : String → String → String → Fields
access_key_query account_id public_key finality = field "request_type" (str "view_access_key") (
    field "account_id" (str account_id)
      (field "public_key" (str public_key) (field "finality" (str finality) end)))

-- The argument `block_id` names a block if it is given and not 0.
unfoldable pub block_of : Option ℕ → Option ℕ
block_of none = none
block_of (some n) = if n == 0 then none else some n

unfoldable pub view_query : String → String → String → String → Option ℕ → Fields
unfolding block_of
view_query account_id method_name args_base64 finality block_id =
    field "request_type" (str "call_function") (
      field "account_id" (str account_id) (
        field "method_name" (str method_name) (
          field "args_base64" (str args_base64) (elim (block_of block_id) [
            | some n ↦ field "block_id" (num n) end
            | none ↦ field "finality" (str finality) end
          ]))))

unfoldable pub proof_query : String → String → String → Json → Fields
proof_query outcome_type tx_or_receipt_id sender_or_receiver_id light_client_head =
    if str_eq outcome_type "receipt"
    then field "type" (str "receipt") (
        field "receipt_id" (str tx_or_receipt_id) (
          field "receiver_id" (str sender_or_receiver_id)
            (field "light_client_head" light_client_head end)))
    else field "type" (str "transaction") (
        field "transaction_hash" (str tx_or_receipt_id) (
          field "sender_id" (str sender_or_receiver_id)
            (field "light_client_head" light_client_head end)))

module _ (net : Network) where
  unfoldable pub get_validators : JsonProvider → Io net Json
  get_validators p = json_rpc net p "validators" (one null) false 0

  unfoldable pub query : JsonProvider → Json → Io net Json
  query p query_object = json_rpc net p "query" query_object false 0

  unfoldable pub get_account : JsonProvider → String → String → Io net Json
  get_account p account_id finality =
      json_rpc net p "query" (obj (account_query "view_account" account_id finality)) false 0

  unfoldable pub get_access_key_list : JsonProvider → String → String → Io net Json
  get_access_key_list p account_id finality =
      json_rpc net p "query" (obj (account_query "view_access_key_list" account_id finality)) false
        0

  unfoldable pub get_access_key : JsonProvider → String → String → String → Io net Json
  get_access_key p account_id public_key finality =
      json_rpc net p "query" (obj (access_key_query account_id public_key finality)) false 0

  -- The arguments come as the base64 text that `b64encode` makes of them; a threshold of `None`
  -- is 0.
  unfoldable pub view_call :
      JsonProvider → String → String → String → String → Option ℕ → ℕ → Io net Json
  view_call p account_id method_name args_base64 finality block_id threshold =
      json_rpc net p "query" (obj (view_query account_id method_name args_base64 finality block_id))
        false threshold

  unfoldable pub get_block : JsonProvider → Json → Io net Json
  get_block p block_id = json_rpc net p "block" (one block_id) false 0

  unfoldable pub get_chunk : JsonProvider → Json → Io net Json
  get_chunk p chunk_id = json_rpc net p "chunk" (one chunk_id) false 0

  unfoldable pub get_changes_in_block : JsonProvider → Json → Io net Json
  get_changes_in_block p changes_in_block_request =
      json_rpc net p "EXPERIMENTAL_changes_in_block" changes_in_block_request false 0

  unfoldable pub get_validators_ordered : JsonProvider → Json → Io net Json
  get_validators_ordered p block_hash =
      json_rpc net p "EXPERIMENTAL_validators_ordered" (one block_hash) false 0

  unfoldable pub get_light_client_proof :
      JsonProvider → String → String → String → Json → Io net Json
  get_light_client_proof p outcome_type tx_or_receipt_id sender_or_receiver_id light_client_head =
      json_rpc net p "light_client_proof"
        (obj (proof_query outcome_type tx_or_receipt_id sender_or_receiver_id light_client_head))
        false 0

  unfoldable pub get_next_light_client_block : JsonProvider → Json → Io net Json
  get_next_light_client_block p last_block_hash =
      json_rpc net p "next_light_client_block" (one last_block_hash) false 0

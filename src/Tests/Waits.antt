-- ===== src/Tests/Waits.antt =====
-- Runs of the theorems on how src/py_near/providers.py waits for a transaction.
use py_near.Base.{false, some, [], ◌≡◌, refl, ◌⊎◌}
use py_near.Json.{truthy}
use py_near.Errors.Classes.{rpc_timeout_error}
use py_near.Errors.Exception.{caught_by, rpc_empty_response}
use py_near.Provider.Client.{JsonProvider}
use py_near.Provider.Calls.{call_rpc_request}
use py_near.Provider.Failover.{failover}
use py_near.Provider.Rpc.{send_tx_and_wait, wait_for_trx, not_found, result_of, json_rpc}
use py_near.Provider.Rpc.Waiting.{EndsAsFound, wait_for_trx-EndsAsFound, send_tx_and_wait_timeout}
use py_near.Tests.Fixtures.{net, two_nodes}

wait_for_trx-EndsAsFound_example :
    EndsAsFound net two_nodes "hash" "bob.near" 6 []
      (wait_for_trx net two_nodes "hash" "bob.near" [])
wait_for_trx-EndsAsFound_example = wait_for_trx-EndsAsFound net two_nodes "hash" "bob.near" []

-- One node, and no nodes: then the content is `None`.
abbrev no_nodes : JsonProvider
no_nodes = record two_nodes { available_rpcs = []; allow_broadcast = false }

send_tx_and_wait_timeout_example :
    (caught_by rpc_timeout_error rpc_empty_response ≡ false) ⊎ (rpc_empty_response ≡ not_found)
unfolding send_tx_and_wait json_rpc call_rpc_request failover result_of truthy caught_by
send_tx_and_wait_timeout_example =
    send_tx_and_wait_timeout net no_nodes "signed" (some "hash") (some "bob.near") []
      rpc_empty_response refl

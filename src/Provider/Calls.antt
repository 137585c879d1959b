-- ===== src/Provider/Calls.antt =====
-- `call_rpc_request` of src/py_near/providers.py.
use py_near.Base.{ℕ, String, Bool, ◌||◌, not, map, ◌==◌, ok, if◌then◌else◌}
use py_near.Json.{Json, null}
use py_near.Provider.Network.{Network}
use py_near.Provider.Client.{JsonProvider, Io, ask, finished, request_to, rpc_body}
use py_near.Provider.Failover.{failover}
use py_near.Provider.Broadcast.{broadcast_loop, at_start}

module _ (net : Network) where
  open net use {gather}

  -- `call_rpc_request`
  unfoldable pub call_rpc_request : JsonProvider → String → Json → Bool → ℕ → Io net Json
  unfolding failover broadcast_loop finished request_to ask rpc_body
  call_rpc_request p method params broadcast threshold w =
      let body = rpc_body method params in
      if broadcast || not (threshold == 0)
      then (let (waves, w') = gather p.available_rpcs (request_to p body) w in
          (broadcast_loop net threshold (map (map (finished net p body)) waves) at_start, w'))
      else (let (res, w') = failover net p body p.available_rpcs null w in (ok res, w'))

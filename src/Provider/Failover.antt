-- ===== src/Provider/Failover.antt =====
-- `call_rpc_request` of src/py_near/providers.py without broadcast.
pub mod Order
use py_near.Base.{String, true, false, List, [], ◌∷◌, ok, err}
use py_near.Json.{Json}
use py_near.Python.{contains}
use py_near.Provider.Network.{Network}
use py_near.Provider.Client.{JsonProvider, ask}

module _ (net : Network) where
  open net use {World}

  -- The loop without broadcast, with `res` as it is so far: each address in turn until one answers
  -- without an error.
  unfoldable pub failover : JsonProvider → Json → List String → Json → World → Json × World
  failover p body [] res w = (res, w)
  failover p body (addr ∷ rest) res w =
      let (answer, w') = ask net p body addr w in
      elim answer [
        | err e ↦ failover p body rest res w'
        | ok v ↦ elim (contains "error" v) [
          | err e ↦ failover p body rest v w'
          | ok true ↦ failover p body rest v w'
          | ok false ↦ (v, w')
        ]
      ]

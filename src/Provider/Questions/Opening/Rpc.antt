-- ===== src/Provider/Questions/Opening/Rpc.antt =====
-- `json_rpc` of src/py_near/providers.py posts its request, if there is a first available address and
-- it can be read.
use py_near.Base.{
  ℕ, String, Bool, true, false, ◌||◌, not, ◌==◌, Option, List, [], ◌∷◌, ok, err, ◌≡◌, refl, sym,
  subst,
}
use py_near.Json.{Json, null}
use py_near.Errors.Exception.{Raises}
use py_near.Provider.Network.{Network, Request}
use py_near.Provider.Address.{authorise}
use py_near.Provider.Client.{JsonProvider, request_to, rpc_body}
use py_near.Provider.Failover.{failover}
use py_near.Provider.Calls.{call_rpc_request}
use py_near.Provider.Rpc.{json_rpc}
use py_near.Provider.Recorded.{recorded}
use py_near.Provider.Questions.Opening.{
  reachable, WasPosted, Opening, bind-Opening, first_request, failover-opens, gather-opens,
  if-opens,
}

module _ (net : Network) where
  open net use {World}

  call_rpc_request-opens :
      (p : JsonProvider) (method : String) (params : Json) (broadcast : Bool) (threshold : ℕ)
      (addr : String) (rest : List String) (target : Option String × String)
      → p.available_rpcs ≡ addr ∷ rest
      → authorise addr ≡ ok target
      → (w : World × List Request)
      → WasPosted net
          (rpc_body method params)
          w.1
          (call_rpc_request (recorded net) p method params broadcast threshold w).1
  unfolding call_rpc_request
  call_rpc_request-opens p method params broadcast threshold addr rest target e a w =
      let body : Json = rpc_body method params in
      let (r, made, b) = first_request net body p addr target a in
      if-opens net body w.1 (broadcast || not (threshold == 0)) _ _
        (subst (λ l. WasPosted net body w.1 ((recorded net).gather l (request_to p body) w).1)
          (sym e) (gather-opens net body (request_to p body) addr rest r made b w))
        (subst (λ l. WasPosted net body w.1 (failover (recorded net) p body l null w).1) (sym e)
          (failover-opens net body p addr rest null r made b w))

  json_rpc-found :
      (p : JsonProvider) (method : String) (params : Json) (broadcast : Bool) (threshold : ℕ)
      (addr : String) (rest : List String) (target : Option String × String)
      → p.available_rpcs ≡ addr ∷ rest
      → authorise addr ≡ ok target
      → Opening net
          (rpc_body method params)
          (json_rpc (recorded net) p method params broadcast threshold)
  unfolding json_rpc
  json_rpc-found p method params broadcast threshold addr rest target e a =
      bind-Opening net (rpc_body method params)
        (call_rpc_request (recorded net) p method params broadcast threshold) _
        (record {
          opens = call_rpc_request-opens p method params broadcast threshold addr rest target e a;
        })
        (λ w content. record { posts = λ w' h. h })

  -- If the first available address can be read, `json_rpc` posts its request.
  pub json_rpc-Opening :
      (p : JsonProvider) (method : String) (params : Json) (broadcast : Bool) (threshold : ℕ)
      → reachable p ≡ true
      → Opening net
          (rpc_body method params)
          (json_rpc (recorded net) p method params broadcast threshold)
  unfolding reachable
  json_rpc-Opening p method params broadcast threshold h = by_addresses p.available_rpcs refl h
    where
      by_target :
          (addr : String) (rest : List String) (t : Raises (Option String × String))
          → p.available_rpcs ≡ addr ∷ rest
          → authorise addr ≡ t
          → (elim t as (λ t. Bool) [ err e ↦ false | ok target ↦ true ]) ≡ true
          → Opening net
              (rpc_body method params)
              (json_rpc (recorded net) p method params broadcast threshold)
      by_target addr rest (err e) same a h = cc
      by_target addr rest (ok target) same a h =
          json_rpc-found p method params broadcast threshold addr rest target same a

      by_addresses :
          (l : List String)
          → p.available_rpcs ≡ l
          → (elim l as (λ l. Bool) [
            | [] ↦ false
            | addr ∷ rest ↦ elim (authorise addr) as (λ t. Bool) [
              | err e ↦ false
              | ok target ↦ true
            ]
          ])
            ≡ true
          → Opening net
              (rpc_body method params)
              (json_rpc (recorded net) p method params broadcast threshold)
      by_addresses [] same h = cc
      by_addresses (addr ∷ rest) same h = by_target addr rest (authorise addr) same refl h

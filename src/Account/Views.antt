-- ===== src/Account/Views.antt =====
-- `view_function` of src/py_near/account.py under a threshold.
use py_near.Base.{ℕ, ◌<◌, String, Option, some, ok, err, ◌≡◌, refl}
use py_near.Base.Method.{continued, lift}
use py_near.Json.{Json, obj}
use py_near.Errors.Exception.{Raises}
use py_near.Models.Keys.{ViewFunctionResult}
use py_near.Provider.Network.{Network}
use py_near.Provider.Queries.{view_query, view_call}
use py_near.Provider.Rpc.Agreed.{Agreed, json_rpc-Agreed}
use py_near.Transactions.{Primitives}
use py_near.Account.State.{State}
use py_near.Account.Answers.{viewed}
use py_near.Account.Chain.{asking, view_function}

module _ (prim : Primitives) (net : Network) where
  lifted-ok :
      {A B : Type 0} (g : A → Raises B) (r : Raises A × State net) (b : B)
      → (continued (λ a. lift (g a)) r).0 ≡ ok b
      → (a : A) × (r.0 ≡ ok a) × (g a ≡ ok b)
  lifted-ok g (ok a, s) b h = (a, refl, h)
  lifted-ok g (err e, s) b h = cc

  -- With a threshold of two or more, what a view function returns is read from the result of an
  -- answer that was received, and at least as many of the answers received have its hash.
  pub view_function-Agreed :
      (contract_id method_name : String) (args : Json) (block_id : Option ℕ) (t : ℕ) (s : State net)
      (r : ViewFunctionResult)
      → 1 < t
      → (view_function prim net contract_id method_name args block_id (some t) s).0 ≡ ok r
      → (result : Json) × (viewed prim result ≡ ok r)
        × Agreed net s.account.provider "query"
            (obj (
              view_query contract_id method_name
                (prim.b64encode (prim.dumps args))
                "optimistic"
                block_id))
            t
            s.world
            result
  unfolding view_function view_call
  view_function-Agreed contract_id method_name args block_id t s r big h =
      let (result, asked, read) =
        lifted-ok (viewed prim)
          (asking prim net
            (λ p.
              view_call net p contract_id method_name (prim.b64encode (prim.dumps args))
                "optimistic" block_id t)
            s)
          r h in
      (result, read, json_rpc-Agreed net s.account.provider "query" _ _ t s.world result big asked)

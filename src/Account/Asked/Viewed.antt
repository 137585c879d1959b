-- ===== src/Account/Asked/Viewed.antt =====
-- What `view_function` of src/py_near/account.py posts.
use py_near.Base.{
  ℕ, String, Bool, true, false, Option, none, some, List, [], ok, err, ◌≡◌, refl, ◌⊎◌, inl, inr,
  Bool-cases,
}
use py_near.Base.Method.{lift, continued}
use py_near.Json.{Json, obj}
use py_near.Errors.Exception.{Raises}
use py_near.Provider.Network.{Network, Request}
use py_near.Provider.Client.{JsonProvider, rpc_body}
use py_near.Provider.Queries.{view_query, view_call}
use py_near.Provider.Recorded.{recorded, OnlyPosted}
use py_near.Provider.Questions.{Posts, json_rpc-Posts}
use py_near.Provider.Questions.Opening.{reachable, WasPosted, Opening}
use py_near.Provider.Questions.Opening.Rpc.{json_rpc-Opening}
use py_near.Transactions.{Primitives}
use py_near.Account.State.{State}
use py_near.Account.Answers.{viewed}
use py_near.Account.Chain.{asking, view_function}

-- What is posted to ask for a view function, with the arguments as they are sent.
abbrev pub viewing : String → String → String → Option ℕ → Json
viewing contract_id method_name args block_id =
    rpc_body "query" (obj (view_query contract_id method_name args "optimistic" block_id))

module _ (net : Network) where
  view_call-Posts :
      (before : List Request) (p : JsonProvider) (contract_id method_name args : String)
      (block_id : Option ℕ) (t : ℕ)
      → Posts net before
          (λ body. body ≡ viewing contract_id method_name args block_id)
          (view_call (recorded net) p contract_id method_name args "optimistic" block_id t)
  unfolding view_call
  view_call-Posts before p contract_id method_name args block_id t =
      json_rpc-Posts net before (λ body. body ≡ viewing contract_id method_name args block_id) p
        "query" _ false t refl

  view_call-Opening :
      (p : JsonProvider) (contract_id method_name args : String) (block_id : Option ℕ) (t : ℕ)
      → reachable p ≡ true
      → Opening net
          (viewing contract_id method_name args block_id)
          (view_call (recorded net) p contract_id method_name args "optimistic" block_id t)
  unfolding view_call
  view_call-Opening p contract_id method_name args block_id t h =
      json_rpc-Opening net p "query" _ false t h

module _ (prim : Primitives) (net : Network) where
  -- Reading an answer posts nothing.
  after_reading :
      {A B : Type 0} (P : State (recorded net) → Type 0) (f : A → Raises B)
      (r : Raises A × State (recorded net))
      → P r.1
      → P (continued (λ a. lift (f a)) r).1
  after_reading P f (ok a, s) h = h
  after_reading P f (err e, s) h = h

  abbrev Viewing : List Request → Json → State (recorded net) → Bool → Type 0
  Viewing before body s reached =
      OnlyPosted net before (λ b. b ≡ body) s.world
      × ((reached ≡ false) ⊎ WasPosted net body before s.world)

  -- The question for a view function is posted, unless there is no available address or the first
  -- one cannot be read, and nothing else is.
  pub view_function-Viewing :
      (contract_id method_name : String) (args : Json) (block_id threshold : Option ℕ)
      (s : State (recorded net))
      → Viewing s.world.1
          (viewing contract_id method_name (prim.b64encode (prim.dumps args)) block_id)
          (view_function prim (recorded net) contract_id method_name args block_id threshold s).1
          (reachable s.account.provider)
  unfolding view_function
  view_function-Viewing contract_id method_name args block_id threshold s =
      let sent : String = prim.b64encode (prim.dumps args) in
      let t : ℕ = elim threshold [ none ↦ 0 | some t ↦ t ] in
      after_reading
        (λ s'.
          Viewing s.world.1 (viewing contract_id method_name sent block_id) s'
            (reachable s.account.provider))
        (viewed prim)
        (asking prim (recorded net)
          (λ p. view_call (recorded net) p contract_id method_name sent "optimistic" block_id t) s)
        (
          view_call-Posts net s.world.1 s.account.provider contract_id method_name sent block_id t
              s.world ([], refl, tt),
          elim (Bool-cases (reachable s.account.provider)) [
            | inl reached ↦ inr (
                (view_call-Opening net s.account.provider contract_id method_name sent block_id t
                    reached).opens
                  s.world)
            | inr missed ↦ inl missed
          ],
        )

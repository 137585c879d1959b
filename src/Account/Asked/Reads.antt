-- ===== src/Account/Asked/Reads.antt =====
-- What the methods of src/py_near/account.py that only read the chain post.
use py_near.Base.{ℕ, String, false, Option, none, some, List, [], ◌∷◌, ◌≡◌, refl}
use py_near.Json.{Json}
use py_near.Provider.Network.{Network, Request}
use py_near.Provider.Client.{JsonProvider}
use py_near.Provider.Queries.{get_account, view_call}
use py_near.Provider.Queries
use py_near.Provider.Recorded.{recorded, OnlyAsked}
use py_near.Provider.Questions.{Asks, json_rpc-Asks}
use py_near.Transactions.{Bytes, Primitives}
use py_near.Account.State.{State}
use py_near.Account.Answers.{listed_keys, balance_of, viewed}
use py_near.Account.Chain.{
  Action, named, ask_first, get_access_key_or_first, get_access_key_list, fetch_state, get_balance,
  view_function,
}
use py_near.Account.Kept.Reads.{memory, ReadsOnly, reads-ReadsOnly, view_function-ReadsOnly}
use py_near.Account.Asked.{Asking, asked-Asking, get_access_key-Asking}

module _ (net : Network) (before : List Request) where
  get_account-Asks :
      (p : JsonProvider) (account_id finality : String)
      → Asks net before (get_account (recorded net) p account_id finality)
  unfolding get_account
  get_account-Asks p account_id finality = json_rpc-Asks net before p _ false 0

  get_access_key_list-Asks :
      (p : JsonProvider) (account_id finality : String)
      → Asks net before (Queries.get_access_key_list (recorded net) p account_id finality)
  unfolding Queries.get_access_key_list
  get_access_key_list-Asks p account_id finality = json_rpc-Asks net before p _ false 0

  view_call-Asks :
      (p : JsonProvider) (account_id method_name args finality : String) (block_id : Option ℕ)
      (threshold : ℕ)
      → Asks net before
          (view_call (recorded net) p account_id method_name args finality block_id threshold)
  unfolding view_call
  view_call-Asks p account_id method_name args finality block_id threshold =
      json_rpc-Asks net before p _ false threshold

module _ (prim : Primitives) (net : Network) (before : List Request) where
  view_function-Asking :
      (contract_id method_name : String) (args : Json) (block_id threshold : Option ℕ)
      → Asking prim net before
          (view_function prim (recorded net) contract_id method_name args block_id threshold)
  unfolding view_function
  view_function-Asking contract_id method_name args block_id threshold =
      asked-Asking prim net before
        (λ p.
          view_call (recorded net) p contract_id method_name (prim.b64encode (prim.dumps args))
            "optimistic" block_id (elim threshold [ none ↦ 0 | some t ↦ t ]))
        (viewed prim) (λ p. view_call-Asks net before p _ _ _ _ block_id _)

  get_balance-Asking :
      (account_id : Option String)
      → Asking prim net before (get_balance prim (recorded net) account_id)
  unfolding get_balance
  get_balance-Asking account_id = record {
    asks = λ s.
        (asked-Asking prim net before
            (λ p.
              get_account (recorded net) p (named prim (recorded net) account_id s.account)
                "optimistic")
            balance_of (λ p. get_account-Asks net before p _ "optimistic")).asks
          s;
  }

  get_access_key_list-Asking :
      (account_id : Option String)
      → Asking prim net before (get_access_key_list prim (recorded net) account_id)
  unfolding get_access_key_list
  get_access_key_list-Asking account_id = record {
    asks = λ s.
        (asked-Asking prim net before
            (λ p.
              Queries.get_access_key_list (recorded net) p
                (named prim (recorded net) account_id s.account) "optimistic")
            listed_keys (λ p. get_access_key_list-Asks net before p _ "optimistic")).asks
          s;
  }

  fetch_state-Asking : Asking prim net before (fetch_state prim (recorded net))
  unfolding fetch_state
  fetch_state-Asking = record {
    asks = λ s.
        get_account-Asks net before s.account.provider s.account.account_id "optimistic" s.world;
  }

  ask_first-Asking :
      (keys : List Bytes) → Asking prim net before (ask_first prim (recorded net) keys)
  ask_first-Asking [] = record { asks = λ s asked. asked }
  ask_first-Asking (pk ∷ rest) = get_access_key-Asking prim net before pk

  get_access_key_or_first-Asking :
      (pk : Option Bytes) → Asking prim net before (get_access_key_or_first prim (recorded net) pk)
  unfolding get_access_key_or_first
  get_access_key_or_first-Asking (some pk) = record {
    asks = (get_access_key-Asking prim net before pk).asks;
  }
  get_access_key_or_first-Asking none = record {
    asks = λ s. (ask_first-Asking s.account.signers).asks s;
  }

module _ (prim : Primitives) (net : Network) where
  -- The account and the nonces are left as they are, and what is posted are questions.
  abbrev pub ReadsByAsking : {A : Type 0} → Action prim (recorded net) A → Type 0
  ReadsByAsking m =
      (s : State (recorded net))
      → (memory prim (recorded net) (m s).1 ≡ memory prim (recorded net) s)
        × OnlyAsked net s.world.1 (m s).1.world

  asks_alone :
      {A : Type 0} (m : Action prim (recorded net) A)
      → ReadsOnly prim (recorded net) m
      → ((before : List Request) → Asking prim net before m)
      → ReadsByAsking m
  asks_alone m only asking s = (only s, (asking s.world.1).asks s ([], refl, tt))

  pub view_function-ReadsByAsking :
      (contract_id method_name : String) (args : Json) (block_id threshold : Option ℕ)
      → ReadsByAsking
          (view_function prim (recorded net) contract_id method_name args block_id threshold)
  view_function-ReadsByAsking contract_id method_name args block_id threshold =
      asks_alone _ (view_function-ReadsOnly prim (recorded net) _ _ _ _ _) (λ before.
        view_function-Asking prim net before contract_id method_name args block_id threshold)

  -- Reading the balance, the state, an access key, the list of access keys or a view function, whether
  -- it returns or raises, changes neither the account nor the nonces, and posts nothing but requests
  -- of the methods `query` and `status`.
  pub reads-ReadByAsking :
      (account_id : Option String) (pk : Option Bytes) (contract_id method_name : String)
      (args : Json) (block_id threshold : Option ℕ)
      → ReadsByAsking (get_balance prim (recorded net) account_id)
        × ReadsByAsking (fetch_state prim (recorded net))
        × ReadsByAsking (get_access_key_or_first prim (recorded net) pk)
        × ReadsByAsking (get_access_key_list prim (recorded net) account_id)
        × ReadsByAsking
            (view_function prim (recorded net) contract_id method_name args block_id threshold)
  reads-ReadByAsking account_id pk contract_id method_name args block_id threshold =
      let (balance, state, key, keys, _) =
        reads-ReadsOnly prim (recorded net) account_id pk contract_id method_name args block_id
          threshold in
      (
        asks_alone _ balance (λ before. get_balance-Asking prim net before account_id),
        asks_alone _ state (fetch_state-Asking prim net),
        asks_alone _ key (λ before. get_access_key_or_first-Asking prim net before pk),
        asks_alone _ keys (λ before. get_access_key_list-Asking prim net before account_id),
        view_function-ReadsByAsking contract_id method_name args block_id threshold,
      )

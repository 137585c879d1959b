-- ===== src/Account/Kept/Reads.antt =====
-- The methods of src/py_near/account.py that only read the chain.
use py_near.Base.{ℕ, String, Option, none, some, List, [], ◌∷◌, ◌≡◌, refl}
use py_near.Json.{Json}
use py_near.Provider.Network.{Network}
use py_near.Provider.Queries.{get_account, view_call}
use py_near.Provider.Queries
use py_near.Transactions.{Bytes, Primitives}
use py_near.Account.State.{Account, State}
use py_near.Account.Kept.{asked-Keeps, get_access_key-Keeps}
use py_near.Account.Chain.{
  named, ask_first, get_access_key, get_access_key_or_first, get_access_key_list, fetch_state,
  get_balance, view_function,
}

module _ (prim : Primitives) (net : Network) where
  -- All that a method can change besides the network.
  abbrev pub memory : State net → Account × List (Bytes × Json)
  memory s = (s.account, s.nonces)

  abbrev pub ReadsOnly : {A : Type 0} → (State net → A × State net) → Type 0
  ReadsOnly m = (s : State net) → memory (m s).1 ≡ memory s

  pub view_function-ReadsOnly :
      (contract_id method_name : String) (args : Json) (block_id threshold : Option ℕ)
      → ReadsOnly (view_function prim net contract_id method_name args block_id threshold)
  unfolding view_function
  view_function-ReadsOnly contract_id method_name args block_id threshold s =
      (asked-Keeps prim net memory (λ s w. refl)
          (λ p.
            view_call net p contract_id method_name (prim.b64encode (prim.dumps args)) "optimistic"
              block_id (elim threshold [ none ↦ 0 | some t ↦ t ]))
          _ (λ result. record { kept = λ s. refl })).kept
        s

  get_balance-ReadsOnly : (account_id : Option String) → ReadsOnly (get_balance prim net account_id)
  unfolding get_balance
  get_balance-ReadsOnly account_id s =
      (asked-Keeps prim net memory (λ s w. refl)
          (λ p. get_account net p (named prim net account_id s.account) "optimistic") _
          (λ result. record { kept = λ s. refl })).kept
        s

  get_access_key_list-ReadsOnly :
      (account_id : Option String) → ReadsOnly (get_access_key_list prim net account_id)
  unfolding get_access_key_list
  get_access_key_list-ReadsOnly account_id s =
      (asked-Keeps prim net memory (λ s w. refl)
          (λ p.
            Queries.get_access_key_list net p (named prim net account_id s.account) "optimistic")
          _ (λ result. record { kept = λ s. refl })).kept
        s

  get_access_key-ReadsOnly : (pk : Bytes) → ReadsOnly (get_access_key prim net pk)
  get_access_key-ReadsOnly pk s = (get_access_key-Keeps prim net memory (λ s w. refl) pk).kept s

  ask_first-ReadsOnly : (keys : List Bytes) → ReadsOnly (ask_first prim net keys)
  ask_first-ReadsOnly [] s = refl
  ask_first-ReadsOnly (pk ∷ rest) s = get_access_key-ReadsOnly pk s

  get_access_key_or_first-ReadsOnly :
      (pk : Option Bytes) → ReadsOnly (get_access_key_or_first prim net pk)
  unfolding get_access_key_or_first
  get_access_key_or_first-ReadsOnly (some pk) s = get_access_key-ReadsOnly pk s
  get_access_key_or_first-ReadsOnly none s = ask_first-ReadsOnly s.account.signers s

  fetch_state-ReadsOnly : ReadsOnly (fetch_state prim net)
  unfolding fetch_state
  fetch_state-ReadsOnly s = refl

  -- Reading the balance, the state, an access key, the list of access keys or a view function
  -- changes neither the account nor the nonces, whether it returns or raises.
  pub reads-ReadsOnly :
      (account_id : Option String) (pk : Option Bytes) (contract_id method_name : String)
      (args : Json) (block_id threshold : Option ℕ)
      → ReadsOnly (get_balance prim net account_id)
        × ReadsOnly (fetch_state prim net)
        × ReadsOnly (get_access_key_or_first prim net pk)
        × ReadsOnly (get_access_key_list prim net account_id)
        × ReadsOnly (view_function prim net contract_id method_name args block_id threshold)
  reads-ReadsOnly account_id pk contract_id method_name args block_id threshold = (
    get_balance-ReadsOnly account_id,
    fetch_state-ReadsOnly,
    get_access_key_or_first-ReadsOnly pk,
    get_access_key_list-ReadsOnly account_id,
    view_function-ReadsOnly contract_id method_name args block_id threshold,
  )

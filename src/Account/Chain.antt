-- ===== src/Account/Chain.antt =====
-- What an `Account` of src/py_near/account.py asks its provider for.
use py_near.Base.{ℕ, ◌+◌, String, Option, none, some, [], ◌∷◌, err, List, ok, ltb, if◌then◌else◌}
use py_near.Base.Method.{Method, lift, ◌>>=◌, ◌>>◌}
use py_near.Json.{Json}
use py_near.Python.{get_item}
use py_near.Errors.Exception.{Exception, index_error}
use py_near.Models.Keys.{AccountAccessKey, PublicKey, ViewFunctionResult}
use py_near.Utils.{timestamp}
use py_near.Provider.Network.{Network}
use py_near.Provider.Client
use py_near.Provider.Client.{JsonProvider, Io}
use py_near.Provider.Health.{get_status}
use py_near.Provider.Queries.{get_account, view_call}
use py_near.Provider.Queries
use py_near.Transactions.{Bytes, Primitives}
use py_near.Transactions
use py_near.Account.State.{Account, State}
use py_near.Account.Answers.{listed_keys, balance_of, access_key_of, viewed, sync_value}

-- Fifty seconds in microseconds.
abbrev pub max_age : ℕ
max_age = 50_000_000

module _ (prim : Primitives) (net : Network) where
  open net use {World}

  abbrev pub Action : Type 0 → Type 0
  Action = Method (State net) Exception

  -- A call of a method of the provider.
  abbrev pub asking : {A : Type 0} → (JsonProvider → Io net A) → Action A
  asking call s = let (r, w) = call s.account.provider s.world in (r, record s { world = w })

  abbrev pub modify : (Account → Account) → Action (Unit {0})
  modify f s = (ok tt, record s { account = f s.account })

  -- `startup`
  unfoldable pub startup : Action (Unit {0})
  startup = do
    status ← asking (get_status net)
    chain_id ← lift (get_item status "chain_id")
    modify (λ a. record a { chain_id = chain_id })

  -- `shutdown`
  unfoldable pub shutdown : Action (Unit {0})
  shutdown = asking (Client.shutdown net)

  -- A value of `sync_info` of the status of a node.
  unfoldable pub sync_info : String → Action Json
  sync_info key = do status ← asking (get_status net); lift (sync_value key status)

  -- `self._latest_block_hash_ts = utils.timestamp()`
  abbrev pub stamp : Action (Unit {0})
  stamp s = modify (λ a. record a { latest_block_hash_ts = timestamp net s.world }) s

  abbrev pub set_hash : Json → Action (Unit {0})
  set_hash hash = modify (λ a. record a { latest_block_hash = some hash })

  abbrev pub set_height : Json → Action (Unit {0})
  set_height height = modify (λ a. record a { latest_block_height = height })

  -- The hash and the height come from two requests.
  unfoldable pub refresh : Action (Unit {0})
  refresh = do
    hash ← sync_info "latest_block_hash"
    set_hash hash
    height ← sync_info "latest_block_height"
    set_height height
    stamp

  -- `_update_last_block_hash`
  unfoldable pub update_last_block_hash : Action (Unit {0})
  update_last_block_hash s =
      if ltb (timestamp net s.world) (s.account.latest_block_hash_ts + max_age)
      then (ok tt, s)
      else refresh s

  -- `get_access_key` from the public key on.
  unfoldable pub ask_access_key : Bytes → Action AccountAccessKey
  ask_access_key public_key = do
    resp ← (λ s.
        asking
          (λ p.
            Queries.get_access_key net p s.account.account_id (prim.b58encode public_key)
              "optimistic")
          s)
    lift (access_key_of resp)

  -- `get_access_key` with a key.
  unfoldable pub get_access_key : Bytes → Action AccountAccessKey
  get_access_key pk = do
    public_key ← lift (Transactions.public_key_of prim pk)
    ask_access_key public_key

  -- `get_access_key` with the first key of the list.
  abbrev pub ask_first : List Bytes → Action AccountAccessKey
  ask_first [] s = (err index_error, s)
  ask_first (pk ∷ rest) s = get_access_key pk s

  -- `get_access_key`, where `None` stands for the first key.
  unfoldable pub get_access_key_or_first : Option Bytes → Action AccountAccessKey
  get_access_key_or_first (some pk) s = get_access_key pk s
  get_access_key_or_first none s = ask_first s.account.signers s

  -- An account argument that may be left out.
  unfoldable pub named : Option String → Account → String
  named none a = a.account_id
  named (some account_id) a = account_id

  unfoldable pub get_access_key_list : Option String → Action (List PublicKey)
  get_access_key_list account_id s =
      (do
        resp ←
            asking
              (λ p. Queries.get_access_key_list net p (named account_id s.account) "optimistic")
        lift (listed_keys resp))
        s

  unfoldable pub fetch_state : Action Json
  fetch_state s = asking (λ p. get_account net p s.account.account_id "optimistic") s

  unfoldable pub get_balance : Option String → Action ℕ
  get_balance account_id s =
      (do
        data' ← asking (λ p. get_account net p (named account_id s.account) "optimistic")
        lift (balance_of data'))
        s

  unfoldable pub view_function :
      String → String → Json → Option ℕ → Option ℕ → Action ViewFunctionResult
  view_function contract_id method_name args block_id threshold = do
    result ← asking (λ p.
        view_call net p contract_id method_name (prim.b64encode (prim.dumps args)) "optimistic"
          block_id (elim threshold [ none ↦ 0 | some t ↦ t ]))
    lift (viewed prim result)

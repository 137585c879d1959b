-- ===== src/Account/Asked.antt =====
-- What a call of src/py_near/account.py posts before it has signed a transaction.
pub mod Ends
pub mod Told
pub mod Sending
pub mod Submitted
pub mod Once
pub mod Unsent
pub mod Reads
pub mod Viewed
use py_near.Base.{ℕ, String, Bool, true, false, List, [], ok, err, if◌then◌else◌}
use py_near.Base.Method.{continued, lift, ◌>>=◌}
use py_near.Errors.Exception.{Raises}
use py_near.Provider.Network.{Network, Request}
use py_near.Provider.Client.{JsonProvider, Io}
use py_near.Provider.Health.{get_status}
use py_near.Provider.Queries
use py_near.Provider.Recorded.{recorded, OnlyAsked}
use py_near.Provider.Questions.{Asks, json_rpc-Asks}
use py_near.Provider.Questions.Statuses.{get_status-Asks}
use py_near.Transactions.{Bytes, Primitives}
use py_near.Transactions
use py_near.Account.State.{State, nonce_of}
use py_near.Account.Chain.{
  Action, asking, sync_info, set_hash, set_height, stamp, refresh, update_last_block_hash,
  ask_access_key, get_access_key,
}
use py_near.Account.Submit.{plus_one, counted, increment, fetch_nonce, next_nonce}

module _ (prim : Primitives) (net : Network) (before : List Request) where
  -- Nothing but questions was posted until this state.
  abbrev pub Asked : State (recorded net) → Type 0
  Asked s = OnlyAsked net before s.world

  -- A method that posts nothing but questions.
  pub record Asking {A : Type 0} (m : Action prim (recorded net) A) : Type 0 where
    pub asks : (s : State (recorded net)) → Asked s → Asked (m s).1

  continued-Asked :
      {A B : Type 0} (k : A → Action prim (recorded net) B) (r : Raises A × State (recorded net))
      → ((a : A) → Asking (k a))
      → Asked r.1
      → Asked (continued k r).1
  continued-Asked k (ok a, s) h asked = (h a).asks s asked
  continued-Asked k (err e, s) h asked = asked

  bind-Asking :
      {A B : Type 0} (m : Action prim (recorded net) A) (k : A → Action prim (recorded net) B)
      → Asking m
      → ((a : A) → Asking (k a))
      → Asking (m >>= k)
  bind-Asking m k h h' = record { asks = λ s asked. continued-Asked k (m s) h' (h.asks s asked) }

  asking-Asking :
      {A : Type 0} (call : JsonProvider → Io (recorded net) A)
      → ((p : JsonProvider) → Asks net before (call p))
      → Asking (asking prim (recorded net) call)
  asking-Asking call h = record { asks = λ s asked. h s.account.provider s.world asked }

  -- A question to the provider, and what is made of its answer.
  pub asked-Asking :
      {A B : Type 0} (call : JsonProvider → Io (recorded net) A) (f : A → Raises B)
      → ((p : JsonProvider) → Asks net before (call p))
      → Asking (asking prim (recorded net) call >>= λ a. lift (f a))
  asked-Asking call f h =
      bind-Asking _ _ (asking-Asking call h) (λ a. record { asks = λ s asked. asked })

  sync_info-Asking : (key : String) → Asking (sync_info prim (recorded net) key)
  unfolding sync_info
  sync_info-Asking key = asked-Asking (get_status (recorded net)) _ (get_status-Asks net before)

  stamp-Asking : Asking (stamp prim (recorded net))
  stamp-Asking = record { asks = λ s h. h }

  refresh-Asking : Asking (refresh prim (recorded net))
  unfolding refresh
  refresh-Asking =
      bind-Asking (sync_info prim (recorded net) "latest_block_hash") _ (sync_info-Asking _)
        (λ hash.
          bind-Asking (set_hash prim (recorded net) hash) _ (record { asks = λ s h. h })
            (λ _.
              bind-Asking (sync_info prim (recorded net) "latest_block_height") _
                (sync_info-Asking _)
                (λ height.
                  bind-Asking (set_height prim (recorded net) height) _ (record { asks = λ s h. h })
                    (λ _. stamp-Asking))))

  if-Asked :
      {A : Type 0} (b : Bool) (x y : A × State (recorded net))
      → Asked x.1
      → Asked y.1
      → Asked (if b then x else y).1
  if-Asked true x y h h' = h
  if-Asked false x y h h' = h'

  pub update-Asking : Asking (update_last_block_hash prim (recorded net))
  unfolding update_last_block_hash
  update-Asking = record {
    asks = λ s asked.
        if-Asked _ (ok tt, s) (refresh prim (recorded net) s) asked (refresh-Asking.asks s asked);
  }

  get_access_key-Asks :
      (p : JsonProvider) (account_id public_key : String)
      → Asks net before (Queries.get_access_key (recorded net) p account_id public_key "optimistic")
  unfolding Queries.get_access_key
  get_access_key-Asks p account_id public_key = json_rpc-Asks net before p _ false 0

  ask_access_key-Asking :
      (public_key : Bytes) → Asking (ask_access_key prim (recorded net) public_key)
  unfolding ask_access_key
  ask_access_key-Asking public_key =
      bind-Asking
        (λ s.
          asking prim (recorded net)
            (λ p.
              Queries.get_access_key (recorded net) p s.account.account_id
                (prim.b58encode public_key) "optimistic")
            s)
        _
        (record {
          asks = λ s asked.
              get_access_key-Asks s.account.provider s.account.account_id
                (prim.b58encode public_key) s.world asked;
        })
        (λ resp. record { asks = λ s h. h })

  pub get_access_key-Asking : (pk : Bytes) → Asking (get_access_key prim (recorded net) pk)
  unfolding get_access_key
  get_access_key-Asking pk =
      bind-Asking (lift (Transactions.public_key_of prim pk)) _ (record { asks = λ s h. h })
        ask_access_key-Asking

  counted-Asked :
      (pk : Bytes) (s : State (recorded net)) (r : Raises ℕ)
      → Asked s
      → Asked (counted prim (recorded net) pk s r).1
  counted-Asked pk s (ok n) h = h
  counted-Asked pk s (err e) h = h

  increment-Asking : (pk : Bytes) → Asking (increment prim (recorded net) pk)
  unfolding increment
  increment-Asking pk = record {
    asks = λ s asked. counted-Asked pk s (plus_one (nonce_of pk s.nonces)) asked;
  }

  fetch_nonce-Asking : (pk : Bytes) → Asking (fetch_nonce prim (recorded net) pk)
  unfolding fetch_nonce
  fetch_nonce-Asking pk =
      bind-Asking (get_access_key prim (recorded net) pk) _ (get_access_key-Asking pk)
        (λ key. record { asks = λ s h. h })

  pub next_nonce-Asking : (pk : Bytes) → Asking (next_nonce prim (recorded net) pk)
  unfolding next_nonce
  next_nonce-Asking pk = record {
    asks = λ s asked.
        if-Asked _ _ _
          ((bind-Asking (fetch_nonce prim (recorded net) pk) _ (fetch_nonce-Asking pk)
              (λ _. increment-Asking pk)).asks
            s asked)
          ((increment-Asking pk).asks s asked);
  }

-- ===== src/Account/Kept.antt =====
-- What a call of the provider leaves as it is, in the methods of src/py_near/account.py that only ask.
pub mod Steps
pub mod Reads
use py_near.Base.{String, Bool, true, false, some, ◌≡◌, refl}
use py_near.Base.Method.{lift, ◌>>=◌}
use py_near.Provider.Network.{Network}
use py_near.Provider.Client.{JsonProvider, Io}
use py_near.Provider.Health.{get_status}
use py_near.Provider.Queries
use py_near.Provider.Rpc.{send_tx, send_tx_included, send_tx_and_wait}
use py_near.Transactions.{Bytes, Primitives}
use py_near.Transactions
use py_near.Account.State.{State}
use py_near.Account.Effects.{Keeps, >>=-Keeps, try_except-Keeps}
use py_near.Account.Chain.{Action, asking, ask_access_key, get_access_key, sync_info}
use py_near.Account.Submit.{send_included, send}

module _ (prim : Primitives) (net : Network) {X : Type 0} (f : State net → X)
    (world_free : (s : State net) (w : net.World) → f (record s { world = w }) ≡ f s) where
  ask-Keeps : {A : Type 0} (call : JsonProvider → Io net A) → Keeps net f (asking prim net call)
  ask-Keeps call = record { kept = λ s. world_free s _ }

  pub sync_info-Keeps : (key : String) → Keeps net f (sync_info prim net key)
  unfolding sync_info
  sync_info-Keeps key =
      >>=-Keeps net f (asking prim net (get_status net)) _ (ask-Keeps (get_status net))
        (λ status. record { kept = λ s. refl })

  pub asked-Keeps :
      {A B : Type 0} (call : JsonProvider → Io net A) (k : A → Action prim net B)
      → ((a : A) → Keeps net f (k a))
      → Keeps net f (asking prim net call >>= k)
  asked-Keeps call k h = >>=-Keeps net f (asking prim net call) k (ask-Keeps call) h

  ask_access_key-Keeps : (public_key : Bytes) → Keeps net f (ask_access_key prim net public_key)
  unfolding ask_access_key
  ask_access_key-Keeps public_key =
      >>=-Keeps net f
        (λ s.
          asking prim net
            (λ p.
              Queries.get_access_key net p s.account.account_id (prim.b58encode public_key)
                "optimistic")
            s)
        _ (record { kept = λ s. world_free s _ }) (λ resp. record { kept = λ s. refl })

  pub get_access_key-Keeps : (pk : Bytes) → Keeps net f (get_access_key prim net pk)
  unfolding get_access_key
  get_access_key-Keeps pk =
      >>=-Keeps net f (lift (Transactions.public_key_of prim pk)) _ (record { kept = λ s. refl })
        (λ public_key. ask_access_key-Keeps public_key)

  send_included-Keeps : (tx : String) → Keeps net f (send_included prim net tx)
  unfolding send_included
  send_included-Keeps tx =
      try_except-Keeps net f (asking prim net (λ p. send_tx_included net p tx)) _
        (record { kept = λ s. world_free s _ }) (λ e. record { kept = λ s. refl })

  pub send-Keeps :
      (receiver_id serialized_tx trx_hash : String) (nowait included : Bool)
      → Keeps net f (send prim net receiver_id serialized_tx trx_hash nowait included)
  unfolding send
  send-Keeps receiver_id serialized_tx trx_hash nowait true =
      >>=-Keeps net f (send_included prim net serialized_tx) _ (send_included-Keeps serialized_tx)
        (λ answer. record { kept = λ s. refl })
  send-Keeps receiver_id serialized_tx trx_hash true false =
      asked-Keeps (λ p. send_tx net p serialized_tx) _ (λ answer. record { kept = λ s. refl })
  send-Keeps receiver_id serialized_tx trx_hash false false =
      asked-Keeps (λ p. send_tx_and_wait net p serialized_tx (some trx_hash) (some receiver_id)) _
        (λ answer. record { kept = λ s. refl })

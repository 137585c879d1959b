-- ===== src/Provider/Questions/Submissions.antt =====
-- Which requests the calls that send a transaction of src/py_near/providers.py post.
use py_near.Base.{
  ℕ, zero, suc, String, Bool, true, false, Option, none, some, List, ok, err, ◌≡◌, ◌⊎◌,
  if◌then◌else◌,
}
use py_near.Base.Method.{pure, lift, handled, ◌>>=◌, try_except}
use py_near.Json.{Json, str, obj, field, end}
use py_near.Errors.Exception.{Exception, Raises, caught_by}
use py_near.Errors.Classes.{rpc_timeout_error, invalid_nonce}
use py_near.Models.Results.{TransactionResult, transaction_result}
use py_near.Provider.Network.{Network, Request}
use py_near.Provider.Client.{JsonProvider, Io, rpc_body}
use py_near.Provider.Rpc.{
  json_rpc, one, two, given, get_tx, wait_rounds, wait_for_trx, send_tx, send_tx_included,
  send_tx_and_wait,
}
use py_near.Provider.Recorded.{method_of, AsksFor, recorded, OnlyPosted}
use py_near.Provider.Questions.{Posts, continued-Posted, json_rpc-Posts}

-- The body that submits a signed transaction, by what the call waits for.
abbrev pub submission : Bool → Bool → String → Json
submission nowait included tx =
    if included
    then rpc_body "send_tx"
        (obj (field "signed_tx_base64" (str tx) (field "wait_until" (str "INCLUDED") end)))
    else if nowait
    then rpc_body "broadcast_tx_async" (one (str tx))
    else rpc_body "broadcast_tx_commit" (one (str tx))

-- A body that submits this transaction, looks for one, or asks.
abbrev pub Submits : Bool → Bool → String → Json → Type 0
Submits nowait included tx body =
    (body ≡ submission nowait included tx) ⊎ (method_of body ≡ some (str "tx")) ⊎ AsksFor body

module _ (net : Network) (before : List Request) (P : Json → Type 0) where
  open net use {World}

  -- A method that posts nothing but bodies with the property.
  pub record Posting {A : Type 0} (m : Io (recorded net) A) : Type 0 where
    pub posts : Posts net before P m

  pub quiet : {A : Type 0} (r : Raises A) → Posting (lift r)
  quiet r = record { posts = λ w posted. posted }

  pub bind-Posting :
      {A B : Type 0} (m : Io (recorded net) A) (k : A → Io (recorded net) B)
      → Posting m
      → ((a : A) → Posting (k a))
      → Posting (m >>= k)
  bind-Posting m k h h' = record {
    posts =
        λ w posted. continued-Posted net before P k (m w) (λ a. (h' a).posts) (h.posts w posted);
  }

  handled-Posted :
      {A : Type 0} (handler : Exception → Io (recorded net) A)
      (r : Raises A × (World × List Request))
      → ((e : Exception) → Posting (handler e))
      → OnlyPosted net before P r.1
      → OnlyPosted net before P (handled handler r).1
  handled-Posted handler (ok a, w) h posted = posted
  handled-Posted handler (err e, w) h posted = (h e).posts w posted

  pub try_except-Posting :
      {A : Type 0} (m : Io (recorded net) A) (handler : Exception → Io (recorded net) A)
      → Posting m
      → ((e : Exception) → Posting (handler e))
      → Posting (try_except m handler)
  try_except-Posting m handler h h' = record {
    posts = λ w posted. handled-Posted handler (m w) h' (h.posts w posted);
  }

  pub if-Posting :
      {A : Type 0} (b : Bool) (m k : Io (recorded net) A)
      → Posting m
      → Posting k
      → Posting (if b then m else k)
  if-Posting true m k h h' = h
  if-Posting false m k h h' = h'

  json_rpc-Posting :
      (p : JsonProvider) (method : String) (params : Json) (broadcast : Bool)
      → P (rpc_body method params)
      → Posting (json_rpc (recorded net) p method params broadcast 0)
  json_rpc-Posting p method params broadcast q = record {
    posts = json_rpc-Posts net before P p method params broadcast 0 q;
  }

  -- A look for a transaction, and the rounds of looks that are left.
  get_tx-Posting :
      (p : JsonProvider) (trx_hash receiver_id : String)
      → P (rpc_body "tx" (two (str trx_hash) (str receiver_id)))
      → Posting (get_tx (recorded net) p trx_hash receiver_id)
  unfolding get_tx
  get_tx-Posting p trx_hash receiver_id q =
      bind-Posting (json_rpc (recorded net) p "tx" _ false 0) _ (json_rpc-Posting p "tx" _ false q)
        (λ res. quiet _)

  wait_rounds-Posting :
      (n : ℕ) (p : JsonProvider) (trx_hash receiver_id : String)
      → P (rpc_body "tx" (two (str trx_hash) (str receiver_id)))
      → Posting (wait_rounds (recorded net) n p trx_hash receiver_id)
  unfolding wait_rounds
  wait_rounds-Posting zero p trx_hash receiver_id q = record { posts = λ w posted. posted }
  wait_rounds-Posting (suc n) p trx_hash receiver_id q = record {
    posts = λ w posted.
        by_look (get_tx (recorded net) p trx_hash receiver_id ((recorded net).sleep 5 w))
          ((get_tx-Posting p trx_hash receiver_id q).posts ((recorded net).sleep 5 w) posted)
          (wait_rounds-Posting n p trx_hash receiver_id q);
  }
    where
      by_look :
          (r : Raises TransactionResult × (World × List Request))
          → OnlyPosted net before P r.1
          → Posting (wait_rounds (recorded net) n p trx_hash receiver_id)
          → OnlyPosted net before P
              (elim r.0 as (λ o. Raises TransactionResult × (World × List Request)) [
                | ok result ↦ (ok result, r.1)
                | err e ↦ wait_rounds (recorded net) n p trx_hash receiver_id r.1
              ]).1
      by_look (ok result, w') h others = h
      by_look (err e, w') h others = others.posts w' h

  -- What follows a timeout, with the receiver and the hash if they are given.
  pub timed_out-Posting :
      (p : JsonProvider) (receiver_id trx_hash : Option String)
      → ((hash receiver : String) → P (rpc_body "tx" (two (str hash) (str receiver))))
      → Posting (elim receiver_id as (λ o. Io (recorded net) (Option TransactionResult)) [
        | none ↦ pure none
        | some receiver ↦ elim trx_hash as (λ o. Io (recorded net) (Option TransactionResult)) [
          | none ↦ pure none
          | some hash ↦ do result ← wait_for_trx (recorded net) p hash receiver; pure (some result)
        ]
      ])
  unfolding wait_for_trx
  timed_out-Posting p none trx_hash q = quiet _
  timed_out-Posting p (some receiver) none q = quiet _
  timed_out-Posting p (some receiver) (some hash) q =
      bind-Posting (wait_rounds (recorded net) 6 p hash receiver) _
        (wait_rounds-Posting 6 p hash receiver (q hash receiver)) (λ result. quiet _)

  pub send_tx_and_wait-Posting :
      (p : JsonProvider) (tx : String) (trx_hash receiver_id : Option String)
      → P (rpc_body "broadcast_tx_commit" (one (str tx)))
      → ((hash receiver : String) → P (rpc_body "tx" (two (str hash) (str receiver))))
      → Posting (send_tx_and_wait (recorded net) p tx trx_hash receiver_id)
  unfolding send_tx_and_wait
  send_tx_and_wait-Posting p tx trx_hash receiver_id q q' =
      try_except-Posting
        (json_rpc (recorded net) p "broadcast_tx_commit" (one (str tx)) p.allow_broadcast 0
          >>= λ res. lift (transaction_result net.codec res) >>= λ result. pure (some result))
        _
        (bind-Posting
          (json_rpc (recorded net) p "broadcast_tx_commit" (one (str tx)) p.allow_broadcast 0) _
          (json_rpc-Posting p "broadcast_tx_commit" _ p.allow_broadcast q)
          (λ res.
            bind-Posting (lift (transaction_result net.codec res)) _ (quiet _) (λ a. quiet _)))
        (λ e.
          if-Posting (caught_by rpc_timeout_error e) _ _
            (timed_out-Posting p (given receiver_id) (given trx_hash) q') (quiet _))

  pub send_tx-Posting :
      (p : JsonProvider) (tx : String)
      → P (rpc_body "broadcast_tx_async" (one (str tx)))
      → Posting (send_tx (recorded net) p tx)
  unfolding send_tx
  send_tx-Posting p tx q = json_rpc-Posting p "broadcast_tx_async" _ p.allow_broadcast q

  pub send_tx_included-Posting :
      (p : JsonProvider) (tx : String)
      → P (submission false true tx)
      → Posting (send_tx_included (recorded net) p tx)
  unfolding send_tx_included
  send_tx_included-Posting p tx q =
      try_except-Posting (json_rpc (recorded net) p "send_tx" _ p.allow_broadcast 0) _
        (json_rpc-Posting p "send_tx" _ p.allow_broadcast q)
        (λ e. if-Posting (caught_by invalid_nonce e) _ _ (quiet _) (quiet _))

-- ===== src/Provider/Rpc.antt =====
-- `json_rpc` of src/py_near/providers.py and the calls that send transactions.
pub mod Outcomes
pub mod Agreed
pub mod Waiting
use py_near.Base.{
  ℕ, zero, suc, String, Bool, true, false, Option, none, some, [], Result, ok, err, str_eq,
  if◌then◌else◌,
}
use py_near.Base.Method.{pure, lift, ◌>>=◌, ◌>>◌, try_except}
use py_near.Json.{Json, null, str, arr, cons, nil, obj, end, field, truthy}
use py_near.Python.{get_item}
use py_near.Errors.Classes.{rpc_timeout_error, invalid_nonce}
use py_near.Errors.Exception.{Exception, provider, rpc_empty_response, caught_by}
use py_near.Models.Results.{TransactionResult, transaction_result}
use py_near.Provider.Network.{Network}
use py_near.Provider.Client.{JsonProvider, Io}
use py_near.Provider.Calls.{call_rpc_request}
use py_near.Provider.Response.{get_error_from_response}

-- `[a]`, `[a, b]` and `[None]` as parameters.
abbrev pub one : Json → Json
one a = arr (cons a nil)

abbrev pub two : Json → Json → Json
two a b = arr (cons a (cons b nil))

-- `RPCTimeoutError("Transaction not found")`
abbrev pub not_found : Exception
not_found = provider (record {
  class = rpc_timeout_error;
  error_json = null;
  attributes = end;
  index = null;
  kind = none;
})

-- A text argument that may be `None` is used if it is not empty.
abbrev pub given : Option String → Option String
given none = none
given (some s) = if str_eq s "" then none else some s

module _ (net : Network) where
  open net use {World, sleep, loads, codec}

  -- `json_rpc` from the content on.
  unfoldable pub result_of : Json → Result Exception Json
  result_of content = elim (truthy content) [
    | false ↦ err rpc_empty_response
    | true ↦ elim (get_error_from_response loads content) [
      | err e ↦ err e
      | ok (some e) ↦ err (provider e)
      | ok none ↦ get_item content "result"
    ]
  ]

  -- `json_rpc`
  unfoldable pub json_rpc : JsonProvider → String → Json → Bool → ℕ → Io net Json
  unfolding result_of
  json_rpc p method params broadcast threshold = do
    content ← call_rpc_request net p method params broadcast threshold
    lift (result_of content)

  unfoldable pub send_tx : JsonProvider → String → Io net Json
  send_tx p signed_tx = json_rpc p "broadcast_tx_async" (one (str signed_tx)) p.allow_broadcast 0

  -- `send_tx_included`: an `InvalidNonce` becomes `None`.
  unfoldable pub send_tx_included : JsonProvider → String → Io net Json
  send_tx_included p signed_tx =
      try_except
        (json_rpc p "send_tx"
          (obj (field "signed_tx_base64" (str signed_tx) (field "wait_until" (str "INCLUDED") end)))
          p.allow_broadcast 0)
        (λ e. if caught_by invalid_nonce e then pure null else lift (err e))

  unfoldable pub get_tx : JsonProvider → String → String → Io net TransactionResult
  get_tx p tx_hash tx_recipient_id = do
    res ← json_rpc p "tx" (two (str tx_hash) (str tx_recipient_id)) false 0
    lift (transaction_result codec res)

  unfoldable pub get_tx_status : JsonProvider → String → String → Io net TransactionResult
  get_tx_status p tx_hash tx_recipient_id = do
    res ← json_rpc p "EXPERIMENTAL_tx_status" (two (str tx_hash) (str tx_recipient_id)) false 0
    lift (transaction_result codec res)

  -- The rounds of `wait_for_trx` that are left. Any exception starts the next round; a
  -- `TransactionResult` is always true.
  unfoldable pub wait_rounds : ℕ → JsonProvider → String → String → Io net TransactionResult
  wait_rounds zero p trx_hash receiver_id w = (err not_found, w)
  wait_rounds (suc n) p trx_hash receiver_id w =
      let (found, w') = get_tx p trx_hash receiver_id (sleep 5 w) in
      elim found [ ok result ↦ (ok result, w') | err e ↦ wait_rounds n p trx_hash receiver_id w' ]

  -- `wait_for_trx`
  unfoldable pub wait_for_trx : JsonProvider → String → String → Io net TransactionResult
  unfolding wait_rounds
  wait_for_trx = wait_rounds 6

  -- `send_tx_and_wait`: on an `RPCTimeoutError` the transaction is looked for if it is known, and
  -- `None` is returned if not.
  unfoldable pub send_tx_and_wait :
      JsonProvider → String → Option String → Option String → Io net (Option TransactionResult)
  send_tx_and_wait p signed_tx trx_hash receiver_id =
      try_except
        (do
          res ← json_rpc p "broadcast_tx_commit" (one (str signed_tx)) p.allow_broadcast 0
          result ← lift (transaction_result codec res)
          pure (some result))
        (λ e.
          if caught_by rpc_timeout_error e
          then elim (given receiver_id) [
            | none ↦ pure none
            | some receiver ↦ elim (given trx_hash) [
              | none ↦ pure none
              | some hash ↦ do result ← wait_for_trx p hash receiver; pure (some result)
            ]
          ]
          else lift (err e))

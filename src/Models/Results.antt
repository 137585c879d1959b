-- ===== src/Models/Results.antt =====
-- `ReceiptOutcome`, `TransactionData` and `TransactionResult` of src/py_near/models.py.
pub mod Logs
use py_near.Base.{
  String, ◌<>◌, true, false, Option, none, some, List, [], ◌∷◌, ◌++◌, ok, err, ◌>>=◌,
}
use py_near.Json.{Json, str, arr, nil, Fields, lookup, to_list, of_list}
use py_near.Python.{contains, get_item, first_item, keywords, argument, iterate}
use py_near.Errors.Exception.{Raises, attribute_error}
use py_near.Errors.Kinds.{KindError, parse_error}
use py_near.Models.Receipt.{ReceiptActions}
use py_near.Models.Actions.{Codec, build_all}

pub record ReceiptOutcome : Type 0 where
  pub receipt_id : Json
  pub logs : Json
  pub metadata : Json
  pub receipt_ids : Json
  pub status : Json
  pub tokens_burnt : Json
  pub gas_burnt : Json

-- `ReceiptOutcome.__init__`
unfoldable pub receipt_outcome : Json → Raises ReceiptOutcome
unfolding get_item
receipt_outcome d = do
  receipt_id ← get_item d "id"
  outcome ← get_item d "outcome"
  logs ← get_item outcome "logs"
  metadata ← get_item outcome "metadata"
  receipt_ids ← get_item outcome "receipt_ids"
  status ← get_item outcome "status"
  tokens_burnt ← get_item outcome "tokens_burnt"
  gas_burnt ← get_item outcome "gas_burnt"
  ok (record {
    receipt_id = receipt_id;
    logs = logs;
    metadata = metadata;
    receipt_ids = receipt_ids;
    status = status;
    tokens_burnt = tokens_burnt;
    gas_burnt = gas_burnt;
  })

-- The property `error` of a `ReceiptOutcome`. The default dict of `TxExecutionError.__init__` is
-- passed through.
module _ (loads : String → Option Json) where
  unfoldable pub error_of : ReceiptOutcome → Fields → Raises (Option KindError) × Fields
  error_of r default = elim (contains "Failure" r.status) [
    | err e ↦ (err e, default)
    | ok false ↦ (ok none, default)
    | ok true ↦
        elim (do
          failure ← get_item r.status "Failure"
          action_error ← get_item failure "ActionError"
          kind ← get_item action_error "kind"
          first_item kind) [
            | err e ↦ (err e, default)
            | ok (error_type, args) ↦
                let (parsed, default') = parse_error loads error_type args default in
                (elim parsed [ ok e ↦ ok (some e) | err e ↦ err e ], default')
          ]
  ]

pub record TransactionData : Type 0 where
  pub hash : Json
  pub public_key : Json
  pub receiver_id : Json
  pub signature : Json
  pub signer_id : Json
  pub nonce : Json
  pub actions : ReceiptActions

-- The property `url`; `formatted` is what an f-string writes for a value that is no text.
unfoldable pub url : (Json → String) → TransactionData → String
url formatted t =
    "https://nearblocks.io/ru/txns/" <> elim t.hash [ str s ↦ s | other ↦ formatted other ]

pub record TransactionResult : Type 0 where
  pub receipt_outcome : List ReceiptOutcome
  pub receipts : Json
  pub transaction_outcome : ReceiptOutcome
  pub status : Json
  pub transaction : TransactionData

receipt_outcomes : List Json → Raises (List ReceiptOutcome)
unfolding receipt_outcome
receipt_outcomes [] = ok []
receipt_outcomes (ro ∷ rest) = do
  outcome ← receipt_outcome ro
  outcomes ← receipt_outcomes rest
  ok (outcome ∷ outcomes)

module _ (codec : Codec) where
  -- `TransactionData(**transaction)`; other keywords are dropped.
  unfoldable pub transaction_data : Json → Raises TransactionData
  unfolding keywords argument
  transaction_data transaction = do
    fs ← keywords transaction
    hash ← argument fs "hash"
    public_key ← argument fs "public_key"
    receiver_id ← argument fs "receiver_id"
    signature ← argument fs "signature"
    signer_id ← argument fs "signer_id"
    nonce ← argument fs "nonce"
    actions ← argument fs "actions"
    built ← build_all codec actions
    ok (record {
      hash = hash;
      public_key = public_key;
      receiver_id = receiver_id;
      signature = signature;
      signer_id = signer_id;
      nonce = nonce;
      actions = built;
    })

  -- `TransactionResult(**res)`; other keywords are dropped.
  unfoldable pub transaction_result : Json → Raises TransactionResult
  unfolding keywords argument transaction_data receipt_outcome receipt_outcomes iterate
  transaction_result res = do
    fs ← keywords res
    receipts_outcome ← argument fs "receipts_outcome"
    transaction_outcome ← argument fs "transaction_outcome"
    transaction ← argument fs "transaction"
    status ← argument fs "status"
    made ← transaction_data transaction
    outcome ← receipt_outcome transaction_outcome
    ros ← iterate receipts_outcome
    outcomes ← receipt_outcomes ros
    ok (record {
      receipt_outcome = outcomes;
      receipts = elim (lookup "receipts" fs) [ none ↦ arr nil | some v ↦ v ];
      transaction_outcome = outcome;
      status = status;
      transaction = made;
    })

-- `logs.extend(ro.logs)` for each outcome, on the list that has grown so far.
unfoldable pub extend_all : List Json → List ReceiptOutcome → Raises (Unit {0}) × List Json
unfolding iterate
extend_all logs [] = (ok tt, logs)
extend_all logs (ro ∷ rest) = elim (iterate ro.logs) [
  | err e ↦ (err e, logs)
  | ok more ↦ extend_all (logs ++ more) rest
]

abbrev pub with_logs : TransactionResult → List Json → TransactionResult
with_logs r logs = record r {
  transaction_outcome = record (r.transaction_outcome) { logs = arr (of_list logs) };
}

-- The end of the loop: the list is in the object, and is returned if nothing was raised.
abbrev pub extended :
    TransactionResult → Raises (Unit {0}) × List Json → Raises Json × TransactionResult
extended r (ok _, logs) = (ok (arr (of_list logs)), with_logs r logs)
extended r (err e, logs) = (err e, with_logs r logs)

-- The property `logs` of a `TransactionResult`: the list that it extends and returns is the one of
-- the transaction's own outcome, so the object changes with each reading. A value that is no list
-- has no `extend`.
unfoldable pub read_logs : TransactionResult → Raises Json × TransactionResult
read_logs r = elim (r.transaction_outcome.logs) [
  | arr vs ↦ extended r (extend_all (to_list vs) r.receipt_outcome)
  | _ ↦ (
    elim r.receipt_outcome [ [] ↦ ok r.transaction_outcome.logs | _ ∷ _ ↦ err attribute_error ],
    r,
  )
]

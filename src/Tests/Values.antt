-- ===== src/Tests/Values.antt =====
-- Runs of the theorems on the exceptions and the models of src/py_near.
use py_near.Base.{String, some, List, [], ◌∷◌, ok, ◌≡◌, refl, str_eq}
use py_near.Json.{Json, null, str, arr, obj, Fields, end, field, lookup, of_list}
use py_near.Errors.Classes.{ErrorClass, tx_execution_error}
use py_near.Errors.Exception.{ProviderError}
use py_near.Models.Receipt.{done}
use py_near.Errors.Kinds.{KindError, parse_error}
use py_near.Errors.Kinds.Parsing.{parse_error_remembers}
use py_near.Models.Results.{ReceiptOutcome, TransactionResult, read_logs}
use py_near.Models.Results.Logs.{read_logs_twice}
use py_near.Provider.Response.Codes.{coded}
use py_near.Tests.Fixtures.{net}

abbrev chain : List (String × ErrorClass)
chain = ("TxExecutionError", tx_execution_error) ∷ []

abbrev start : ProviderError
start = coded "INVALID_TRANSACTION" null

abbrev cause : Fields
cause = field "name" (str "TIMEOUT_ERROR") end

abbrev error : Fields
error = field "cause" (obj cause) (field "data" (str "late") end)

abbrev outcome : List Json → ReceiptOutcome
outcome logs = record {
  receipt_id = null;
  logs = arr (of_list logs);
  metadata = null;
  receipt_ids = null;
  status = null;
  tokens_burnt = null;
  gas_burnt = null;
}

abbrev result : TransactionResult
result = record {
  receipt_outcome = outcome (str "b" ∷ []) ∷ [];
  receipts = null;
  transaction_outcome = outcome (str "a" ∷ []);
  status = null;
  transaction = record {
    hash = null;
    public_key = null;
    receiver_id = null;
    signature = null;
    signer_id = null;
    nonce = null;
    actions = done;
  };
}

read_logs_twice_example :
    ((read_logs result).0 ≡ ok (arr (of_list (str "a" ∷ str "b" ∷ []))))
    × ((read_logs (read_logs result).1).0 ≡ ok (arr (of_list (str "a" ∷ str "b" ∷ str "b" ∷ []))))
read_logs_twice_example =
    read_logs_twice result (str "a" ∷ []) ((str "b" ∷ []) ∷ []) refl (refl, tt)

parse_error_remembers_example :
    (e : KindError) × (parse_error
        (net.loads)
        "LackBalanceForState"
        (obj (field "signer_id" (str "alice.near") end))
        end
      ≡ (ok e, e.attributes))
    × (parse_error (net.loads) "LackBalanceForState" (obj end) e.attributes ≡ (ok e, e.attributes))
    × (lookup "signer_id" e.attributes ≡ some (str "alice.near"))
unfolding lookup str_eq
parse_error_remembers_example =
    parse_error_remembers (net.loads) "signer_id" (str "alice.near") end end refl refl refl

abbrev deleted : Fields
deleted = field "public_key" (str "ed25519:key") (field "account_id" (str "bob.near") end)

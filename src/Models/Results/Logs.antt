-- ===== src/Models/Results/Logs.antt =====
-- The property `logs` of a `TransactionResult` (src/py_near/models.py).
use py_near.Base.{list_laws, List, [], ◌∷◌, ◌++◌, ok, ◌≡◌, refl, ◌∙◌, ap}
use py_near.Json.{Json, arr, to_list, of_list}
use py_near.Python.{iterate}
use py_near.Models.Results.{ReceiptOutcome, TransactionResult, extend_all, with_logs, read_logs}

-- The logs of receipts that hold lists, one after the other.
abbrev pub receipt_logs : List (List Json) → List Json
receipt_logs [] = []
receipt_logs (logs ∷ rest) = logs ++ receipt_logs rest

-- The outcomes hold these lists of logs.
abbrev pub HoldLogs : List ReceiptOutcome → List (List Json) → Type 0
HoldLogs [] [] = Unit
HoldLogs [] (_ ∷ _) = ⊥
HoldLogs (_ ∷ _) [] = ⊥
HoldLogs (ro ∷ ros) (logs ∷ rest) = (ro.logs ≡ arr (of_list logs)) × HoldLogs ros rest

to_list-of_list : (l : List Json) → to_list (of_list l) ≡ l
to_list-of_list [] = refl
to_list-of_list (x ∷ l) = ap (λ r. x ∷ r) (to_list-of_list l)

iterate-of_list : (v : Json) (l : List Json) → v ≡ arr (of_list l) → iterate v ≡ ok l
unfolding iterate
iterate-of_list v l h = rw h (ap ok (to_list-of_list l))

extend_all-cons :
    (acc : List Json) (ro : ReceiptOutcome) (ros : List ReceiptOutcome) (l : List Json)
    → iterate ro.logs ≡ ok l
    → extend_all acc (ro ∷ ros) ≡ extend_all (acc ++ l) ros
unfolding extend_all
extend_all-cons acc ro ros l h = rw (h, extend_all)

extend_all-appends :
    (acc : List Json) (ros : List ReceiptOutcome) (logs : List (List Json))
    → HoldLogs ros logs
    → extend_all acc ros ≡ (ok tt, acc ++ receipt_logs logs)
extend_all-appends acc [] [] h = unfold extend_all in simp list_laws
extend_all-appends acc [] (_ ∷ _) h = elim h [ ]
extend_all-appends acc (_ ∷ _) [] h = elim h [ ]
extend_all-appends acc (ro ∷ ros) (l ∷ logs) h =
    extend_all-cons acc ro ros l (iterate-of_list ro.logs l h.0)
    ∙ extend_all-appends (acc ++ l) ros logs h.1
    ∙ simp list_laws

-- One reading returns the transaction's own logs with the receipts' logs behind them, and leaves
-- that list in the transaction's outcome.
pub read_logs_lem :
    (r : TransactionResult) (own : List Json) (logs : List (List Json))
    → r.transaction_outcome.logs ≡ arr (of_list own)
    → HoldLogs r.receipt_outcome logs
    → let all = own ++ receipt_logs logs in read_logs r ≡ (ok (arr (of_list all)), with_logs r all)
unfolding read_logs
read_logs_lem r own logs e h =
    let grown : extend_all (to_list (of_list own)) r.receipt_outcome
        ≡ (ok tt, own ++ receipt_logs logs) =
      ap (λ l. extend_all l r.receipt_outcome) (to_list-of_list own)
      ∙ extend_all-appends own r.receipt_outcome logs h in
    rw (e, read_logs) (rw grown)

-- The second reading returns the receipts' logs twice: reading the property is no pure operation.
pub read_logs_twice :
    (r : TransactionResult) (own : List Json) (logs : List (List Json))
    → r.transaction_outcome.logs ≡ arr (of_list own)
    → HoldLogs r.receipt_outcome logs
    → let receipts = receipt_logs logs in
      ((read_logs r).0 ≡ ok (arr (of_list (own ++ receipts))))
      × ((read_logs (read_logs r).1).0 ≡ ok (arr (of_list ((own ++ receipts) ++ receipts))))
read_logs_twice r own logs e h =
    let receipts = receipt_logs logs in
    let once = read_logs_lem r own logs e h in
    (
      rw once,
      rw once (rw (read_logs_lem (with_logs r (own ++ receipts)) (own ++ receipts) logs refl h)),
    )

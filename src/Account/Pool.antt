-- ===== src/Account/Pool.antt =====
-- The queue `_free_signers` of src/py_near/account.py under calls of `sign_and_submit_tx` that run at
-- once: which keys they take before any of them has ended.
use py_near.Base.{ℕ, zero, suc, Option, none, some, List, [], ◌∷◌}
use py_near.Provider.Network.{Network}
use py_near.Transactions.{Bytes, Primitives}
use py_near.Account.State.{State}
use py_near.Account.Submit.{take_signer}

module _ (prim : Primitives) (net : Network) where
  abbrev and_key : Bytes → Option (List Bytes × State net) → Option (List Bytes × State net)
  and_key pk none = none
  and_key pk (some (keys, s)) = some (pk ∷ keys, s)

  -- So many calls take their key one after another, and none of them has ended: the keys in their
  -- order, or `none` where a call waits.
  abbrev pub takes : ℕ → State net → Option (List Bytes × State net)
  takes zero s = some ([], s)
  takes (suc n) s = elim (take_signer prim net s) [
    | none ↦ none
    | some (pk, s') ↦ and_key pk (takes n s')
  ]

  -- The state with another queue.
  abbrev queued : List Bytes → State net → State net
  queued keys s = record s { account = record s.account { free_signers = keys } }

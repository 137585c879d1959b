-- ===== src/Account/Asked/Unsent.antt =====
-- A call of `sign_and_submit_tx` of src/py_near/account.py that raises with no `trx_hash`.
use py_near.Base.{String, Bool, none, some, err, ◌≡◌, inl, inr, ◌∙◌, sym}
use py_near.Provider.Network.{Network}
use py_near.Provider.Recorded.{recorded, OnlyAsked}
use py_near.Transactions.{NearActions, Primitives}
use py_near.Account.State.{State}
use py_near.Account.Submit.{Failure, sign_and_submit_tx}
use py_near.Account.Asked.Once.{SubmitsOne, sign_and_submit_tx-SubmitsOne}

-- A call that raises an exception with no `trx_hash` has posted nothing but questions, of the
-- methods `query` and `status`: no transaction was submitted.
pub sign_and_submit_tx-Unsent :
    (prim : Primitives) (net : Network) (receiver_id : String) (actions : NearActions)
    (nowait included : Bool) (s s' : State (recorded net)) (f : Failure)
    → sign_and_submit_tx prim (recorded net) receiver_id actions nowait included s
      ≡ some (err f, s')
    → f.trx_hash ≡ none
    → OnlyAsked net s.world.1 s'.world
sign_and_submit_tx-Unsent prim net receiver_id actions nowait included s s' f e no_hash =
    by_end
      (sign_and_submit_tx-SubmitsOne prim net receiver_id actions nowait included s s' (err f) e)
  where
    by_end :
        SubmitsOne prim net s.world.1 receiver_id actions nowait included (err f, s')
        → OnlyAsked net s.world.1 s'.world
    by_end (inl (asked, _)) = asked
    by_end (inr (pk, nonce, trx_hash, tx, held, signed, posted, submitted, told)) =
        let h : none ≡ some trx_hash = sym no_hash ∙ told in cc

-- ===== src/Account/Asked/Submitted.antt =====
-- The body of the `try` of `sign_and_submit_tx` of src/py_near/account.py submits its transaction.
use py_near.Base.{
  String, Bool, true, false, some, List, ok, err, ◌≡◌, ◌⊎◌, inl, inr, Bool-cases, if◌then◌else◌,
}
use py_near.Base.Method.{pure, lift, continued, handled}
use py_near.Json.{Json, null}
use py_near.Errors.Classes.{rpc_timeout_error}
use py_near.Errors.Exception.{Exception, Raises, caught_by}
use py_near.Provider.Network.{Network, Request}
use py_near.Provider.Rpc.{send_tx, send_tx_included, send_tx_and_wait}
use py_near.Provider.Recorded.{recorded}
use py_near.Provider.Questions.Submissions.{submission}
use py_near.Provider.Questions.Opening.{reachable, WasPosted}
use py_near.Provider.Questions.Opening.Sending.{
  send_tx-Opening, send_tx_included-Opening, send_tx_and_wait-Opening,
}
use py_near.Transactions.{Primitives}
use py_near.Account.State.{State}
use py_near.Account.Chain.{asking}
use py_near.Account.Submit.{hashed, answered, executed, send, send_included}

module _ (prim : Primitives) (net : Network) (body : Json) (before : List Request) where
  after_pure :
      {A B : Type 0} (f : A → B) (r : Raises A × State (recorded net))
      → WasPosted net body before r.1.world
      → WasPosted net body before (continued (λ a. pure (f a)) r).1.world
  after_pure f (ok a, s) h = h
  after_pure f (err e, s) h = h

  after_lift :
      {A : Type 0} (f : Exception → Raises A) (r : Raises A × State (recorded net))
      → WasPosted net body before r.1.world
      → WasPosted net body before (handled (λ e. lift (f e)) r).1.world
  after_lift f (ok a, s) h = h
  after_lift f (err e, s) h = h

module _ (prim : Primitives) (net : Network) (receiver_id tx trx_hash : String) where
  send-submits :
      (nowait included : Bool) (s : State (recorded net))
      → reachable s.account.provider ≡ true
      → WasPosted net
          (submission nowait included tx)
          s.world.1
          (send prim (recorded net) receiver_id tx trx_hash nowait included s).1.world
  unfolding send send_included
  send-submits nowait true s h =
      let body : Json = submission nowait true tx in
      let sent = asking prim (recorded net) (λ p. send_tx_included (recorded net) p tx) s in
      after_pure prim net body s.world.1 (λ answer. hashed trx_hash)
        (send_included prim (recorded net) tx s)
        (after_lift prim net body s.world.1
          (λ e. if caught_by rpc_timeout_error e then ok null else err e) sent
          ((send_tx_included-Opening net s.account.provider tx nowait h).opens s.world))
  send-submits true false s h =
      after_pure prim net (submission true false tx) s.world.1 answered
        (asking prim (recorded net) (λ p. send_tx (recorded net) p tx) s)
        ((send_tx-Opening net s.account.provider tx h).opens s.world)
  send-submits false false s h =
      after_pure prim net (submission false false tx) s.world.1 executed
        (asking prim (recorded net)
          (λ p. send_tx_and_wait (recorded net) p tx (some trx_hash) (some receiver_id)) s)
        ((send_tx_and_wait-Opening net s.account.provider tx (some trx_hash) (some receiver_id)
            h).opens
          s.world)

  -- The submission is posted, or there is no first available address that can be read.
  pub send-Submitted :
      (nowait included : Bool) (s : State (recorded net))
      → (reachable s.account.provider ≡ false)
        ⊎ WasPosted net
            (submission nowait included tx)
            s.world.1
            (send prim (recorded net) receiver_id tx trx_hash nowait included s).1.world
  send-Submitted nowait included s = elim (Bool-cases (reachable s.account.provider)) [
    | inl reached ↦ inr (send-submits nowait included s reached)
    | inr lost ↦ inl lost
  ]

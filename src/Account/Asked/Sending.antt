-- ===== src/Account/Asked/Sending.antt =====
-- What a call of `sign_and_submit_tx` of src/py_near/account.py posts in the body of its `try`.
use py_near.Base.{
  String, Bool, true, false, some, List, ok, err, ◌≡◌, refl, inl, inr, All-map, str_eq,
}
use py_near.Base.Method.{pure, lift, continued, handled, ◌>>=◌, try_except}
use py_near.Json.{Json, str, lookup}
use py_near.Errors.Exception.{Exception, Raises}
use py_near.Provider.Network.{Network, Request}
use py_near.Provider.Client.{JsonProvider, Io, rpc_body}
use py_near.Provider.Rpc.{send_tx, send_tx_included, send_tx_and_wait}
use py_near.Provider.Recorded.{recorded, method_of, OnlyPosted}
use py_near.Provider.Questions.Submissions.{
  Submits, Posting, send_tx-Posting, send_tx_included-Posting, send_tx_and_wait-Posting,
}
use py_near.Transactions.{Primitives}
use py_near.Account.State.{State}
use py_near.Account.Chain.{Action, asking}
use py_near.Account.Submit.{send, send_included}
use py_near.Account.Asked.{Asked}

-- A look for a transaction names the method `tx`.
look-named : (params : Json) → method_of (rpc_body "tx" params) ≡ some (str "tx")
unfolding rpc_body lookup str_eq
look-named params = refl

module _ (prim : Primitives) (net : Network) (before : List Request) (P : Json → Type 0) where
  -- A method of the account that posts nothing but bodies with the property.
  pub record Sending {A : Type 0} (m : Action prim (recorded net) A) : Type 0 where
    pub sends :
        (s : State (recorded net))
        → OnlyPosted net before P s.world
        → OnlyPosted net before P (m s).1.world

  after_pure :
      {A B : Type 0} (f : A → B) (r : Raises A × State (recorded net))
      → OnlyPosted net before P r.1.world
      → OnlyPosted net before P (continued (λ a. pure (f a)) r).1.world
  after_pure f (ok a, s) h = h
  after_pure f (err e, s) h = h

  then_pure :
      {A B : Type 0} (m : Action prim (recorded net) A) (f : A → B)
      → Sending m
      → Sending (m >>= λ a. pure (f a))
  then_pure m f h = record { sends = λ s posted. after_pure f (m s) (h.sends s posted) }

  after_lift :
      {A : Type 0} (f : Exception → Raises A) (r : Raises A × State (recorded net))
      → OnlyPosted net before P r.1.world
      → OnlyPosted net before P (handled (λ e. lift (f e)) r).1.world
  after_lift f (ok a, s) h = h
  after_lift f (err e, s) h = h

  or_lift :
      {A : Type 0} (m : Action prim (recorded net) A) (f : Exception → Raises A)
      → Sending m
      → Sending (try_except m (λ e. lift (f e)))
  or_lift m f h = record { sends = λ s posted. after_lift f (m s) (h.sends s posted) }

  asking-Sending :
      {A : Type 0} (call : JsonProvider → Io (recorded net) A)
      → ((p : JsonProvider) → Posting net before P (call p))
      → Sending (asking prim (recorded net) call)
  asking-Sending call h = record { sends = λ s. (h s.account.provider).posts s.world }

module _ (prim : Primitives) (net : Network) (before : List Request) (receiver_id : String) where
  -- What is posted in the body of the `try`.
  pub send-Submits :
      (tx trx_hash : String) (nowait included : Bool)
      → Sending prim net before
          (Submits nowait included tx)
          (send prim (recorded net) receiver_id tx trx_hash nowait included)
  unfolding send send_included
  send-Submits tx trx_hash nowait true =
      let P : Json → Type 0 = Submits nowait true tx in
      let call = λ (p : JsonProvider). send_tx_included (recorded net) p tx in
      then_pure prim net before P (send_included prim (recorded net) tx) _ (
        or_lift prim net before P (asking prim (recorded net) call) _ (
          asking-Sending prim net before P call
            (λ p. send_tx_included-Posting net before P p tx (inl refl))))
  send-Submits tx trx_hash true false =
      let P : Json → Type 0 = Submits true false tx in
      let call = λ (p : JsonProvider). send_tx (recorded net) p tx in
      then_pure prim net before P (asking prim (recorded net) call) _
        (asking-Sending prim net before P call (λ p. send_tx-Posting net before P p tx (inl refl)))
  send-Submits tx trx_hash false false =
      let P : Json → Type 0 = Submits false false tx in
      let call = λ (p : JsonProvider).
        send_tx_and_wait (recorded net) p tx (some trx_hash) (some receiver_id) in
      then_pure prim net before P (asking prim (recorded net) call) _ (
        asking-Sending prim net before P call (λ p.
          send_tx_and_wait-Posting net before P p tx (some trx_hash) (some receiver_id) (inl refl)
            (λ hash receiver. inr (inl (look-named _)))))

  pub none_sent_yet :
      (tx : String) (nowait included : Bool) (s : State (recorded net))
      → Asked prim net before s
      → OnlyPosted net before (Submits nowait included tx) s.world
  none_sent_yet tx nowait included s (new, e, asked) =
      (new, e, All-map (λ r q. inr (inr q)) new asked)

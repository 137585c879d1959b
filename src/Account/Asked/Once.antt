-- ===== src/Account/Asked/Once.antt =====
-- What a call of `sign_and_submit_tx` of src/py_near/account.py posts when it has signed.
use py_near.Base.{
  ℕ, String, Bool, false, some, none, List, [], Result, ok, err, ◌≡◌, ◌⊎◌, refl, ap, ◌∙◌, inl, inr,
  All-map,
}
use py_near.Json.{Json}
use py_near.Errors.Exception.{Exception, Raises}
use py_near.Provider.Network.{Network, Request}
use py_near.Provider.Recorded.{recorded, OnlyPosted, OnlyAsked}
use py_near.Provider.Questions.Submissions.{submission, Submits}
use py_near.Transactions.{Bytes, NearActions, Primitives}
use py_near.Account.State.{State, nonce_of}
use py_near.Account.Sign.{sign_tx}
use py_near.Account.Kept.{send-Keeps}
use py_near.Account.Nonces.{HasNonce, submit_signed-nonces}
use py_near.Account.Submit.{Sent, Failure, submit_signed, sign_and_submit_tx, finished, send}
use py_near.Account.Asked.{Asked}
use py_near.Provider.Questions.Opening.{reachable, WasPosted, WasPosted-earlier}
use py_near.Account.Asked.Sending.{send-Submits, none_sent_yet}
use py_near.Account.Asked.Submitted.{send-Submitted}
use py_near.Account.Asked.Told.{Tells, sent-Tells}
use py_near.Account.Asked.Ends.{sign_and_submit_tx-Ends}

module _ (prim : Primitives) (net : Network) (before : List Request) (receiver_id : String)
    (actions : NearActions) (nowait included : Bool) where
  -- Nothing but questions was posted, and an exception without a hash tells so; or a transaction was
  -- signed, with the account and the stored nonce as they are now, nothing was posted but its
  -- submission, questions and looks for a transaction, the submission was posted unless there
  -- is no available address or the first one cannot be read, and its hash is told.
  abbrev pub SubmitsOne : Result Failure Sent × State (recorded net) → Type 0
  SubmitsOne (r, s) =
      (OnlyAsked net before s.world
        × ((e : Exception) × (r ≡ err (record { exception = e; trx_hash = none }))))
      ⊎ ((pk : Bytes) × (nonce : ℕ) × (trx_hash tx : String) × HasNonce prim (recorded net) pk nonce
            s
          × (sign_tx prim s.account pk receiver_id actions nonce ≡ ok (trx_hash, tx))
          × OnlyPosted net before (Submits nowait included tx) s.world
          × ((reachable s.account.provider ≡ false)
              ⊎ WasPosted net (submission nowait included tx) before s.world)
          × Tells trx_hash r)

  module _ (pk : Bytes) (nonce : ℕ) where
    -- What would be signed with the account.
    abbrev signs : State (recorded net) → Raises (String × String)
    signs s = sign_tx prim s.account pk receiver_id actions nonce

    finished-signs :
        (trx_hash : String) (r : Raises Sent × State (recorded net))
        → signs (finished prim (recorded net) pk trx_hash r).1 ≡ signs r.1
    unfolding sign_tx
    finished-signs trx_hash (ok sent, s) = refl
    finished-signs trx_hash (err e, s) = refl

    finished-Posted :
        (trx_hash : String) (P : Json → Type 0) (r : Raises Sent × State (recorded net))
        → OnlyPosted net before P r.1.world
        → OnlyPosted net before P (finished prim (recorded net) pk trx_hash r).1.world
    finished-Posted trx_hash P (ok sent, s) h = h
    finished-Posted trx_hash P (err e, s) h = h

    finished_submission :
        (body : Json) (s s' : State (recorded net))
        → Asked prim net before s
        → s'.account ≡ s.account
        → (reachable s.account.provider ≡ false) ⊎ WasPosted net body s.world.1 s'.world
        → (reachable s'.account.provider ≡ false) ⊎ WasPosted net body before s'.world
    finished_submission body s s' asked same (inl lost) =
        inl (ap (λ a. reachable a.provider) same ∙ lost)
    finished_submission body s s' (new, e, asked) same (inr posted) = inr (
        WasPosted-earlier net body before s.world s'.world (new, e, All-map (λ r q. tt) new asked)
          posted)

    finished-Submitted :
        (trx_hash : String) (body : Json) (s : State (recorded net))
        (r : Raises Sent × State (recorded net))
        → Asked prim net before s
        → r.1.account ≡ s.account
        → (reachable s.account.provider ≡ false) ⊎ WasPosted net body s.world.1 r.1.world
        → (reachable (finished prim (recorded net) pk trx_hash r).1.account.provider ≡ false)
          ⊎ WasPosted net body before (finished prim (recorded net) pk trx_hash r).1.world
    finished-Submitted trx_hash body s (ok sent, s') asked same h =
        finished_submission body s s' asked same h
    finished-Submitted trx_hash body s (err e, s') asked same h =
        finished_submission body s s' asked same h

    submit_signed-SubmitsOne :
        (s : State (recorded net)) (r : Raises (String × String))
        → signs s ≡ r
        → HasNonce prim (recorded net) pk nonce s
        → Asked prim net before s
        → SubmitsOne (submit_signed prim (recorded net) pk receiver_id nowait included r s)
    unfolding submit_signed
    submit_signed-SubmitsOne s (err e) h held asked = inl (asked, (e, refl))
    submit_signed-SubmitsOne s (ok (trx_hash, tx)) h held asked =
        let r = send prim (recorded net) receiver_id tx trx_hash nowait included s in
        inr (
          pk,
          nonce,
          trx_hash,
          tx,
          ap (nonce_of pk) (
                submit_signed-nonces prim (recorded net) pk receiver_id nowait included
                  (ok (trx_hash, tx)) s)
              ∙ held,
          finished-signs trx_hash r
              ∙ (send-Keeps prim (recorded net) signs (λ t w. refl) receiver_id tx trx_hash nowait
                    included).kept
                  s
              ∙ h,
          finished-Posted trx_hash (Submits nowait included tx) r (
              (send-Submits prim net before receiver_id tx trx_hash nowait included).sends s
                (none_sent_yet prim net before receiver_id tx nowait included s asked)),
          finished-Submitted trx_hash (submission nowait included tx) s r asked
              ((send-Keeps prim (recorded net) (λ t. t.account) (λ t w. refl) receiver_id tx
                  trx_hash nowait included).kept
                s)
              (send-Submitted prim net receiver_id tx trx_hash nowait included s),
          sent-Tells prim (recorded net) trx_hash pk receiver_id tx nowait included s,
        )

-- A call that ends has either posted nothing but questions, and raises an exception with no
-- `trx_hash`; or it has signed a transaction, with the nonce that it leaves for the key. It has then
-- posted the submission of that one, with the method that its flags name, unless there is no
-- available address or the first one cannot be read, and nothing else but questions and looks for a
-- transaction; and it gives the hash of the one that it signed to the exception that it raises, or
-- returns that hash if it returns one.
pub sign_and_submit_tx-SubmitsOne :
    (prim : Primitives) (net : Network) (receiver_id : String) (actions : NearActions)
    (nowait included : Bool) (s s' : State (recorded net)) (r : Result Failure Sent)
    → sign_and_submit_tx prim (recorded net) receiver_id actions nowait included s ≡ some (r, s')
    → SubmitsOne prim net s.world.1 receiver_id actions nowait included (r, s')
sign_and_submit_tx-SubmitsOne prim net receiver_id actions nowait included s s' r =
    sign_and_submit_tx-Ends prim net s.world.1 receiver_id actions nowait included
      (SubmitsOne prim net s.world.1 receiver_id actions nowait included)
      (λ e s asked. inl (asked, (e, refl)))
      (λ pk nonce s held asked.
        submit_signed-SubmitsOne prim net _ receiver_id actions nowait included pk nonce s _ refl
          held asked)
      s (r, s') ([], refl, tt)

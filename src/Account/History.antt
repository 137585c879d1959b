-- ===== src/Account/History.antt =====
-- Calls of `sign_and_submit_tx` of src/py_near/account.py one after another, on one account.
pub mod Ready
pub mod Rising
use py_near.Base.{
  ℕ, String, Bool, Option, none, some, List, [], ◌∷◌, Result, ok, err, ◌≡◌, refl, ◌∙◌, subst,
}
use py_near.Json.{Json}
use py_near.Errors.Exception.{Raises}
use py_near.Provider.Network.{Network}
use py_near.Provider.Client.{JsonProvider}
use py_near.Transactions.{Bytes, NearActions, Primitives}
use py_near.Account.State.{Account, State, SignerKey}
use py_near.Account.Kept.{send-Keeps}
use py_near.Account.Kept.Steps.{Blind, update-Keeps, next_nonce-Keeps}
use py_near.Account.Chain.{update_last_block_hash}
use py_near.Account.Submit.{
  Sent, Failure, next_nonce, send, finished, plain, signed, submit_signed, submit_with, submit_by,
  with_nonce, submit_taken, take_signer, submit_fresh, sign_and_submit_tx,
}

-- The fields of an account that a call only reads.
pub record Identity : Type 0 where
  pub provider : JsonProvider
  pub account_id : String
  pub signers : List Bytes
  pub signer_by_pk : List (SignerKey × Bytes)
  pub chain_id : Json

abbrev pub identity : Account → Identity
identity a = record {
  provider = a.provider;
  account_id = a.account_id;
  signers = a.signers;
  signer_by_pk = a.signer_by_pk;
  chain_id = a.chain_id;
}

module _ (prim : Primitives) (net : Network) where
  abbrev held : State net → Identity
  held s = identity s.account

  held-Blind : Blind prim net held
  held-Blind = record {
    world = λ s w. refl;
    hash = λ h. record { kept = λ s. refl };
    height = λ h. record { kept = λ s. refl };
    time = record { kept = λ s. refl };
  }

  finished-held :
      (pk : Bytes) (trx_hash : String) (r : Raises Sent × State net)
      → held (finished prim net pk trx_hash r).1 ≡ held r.1
  finished-held pk trx_hash (ok sent, s) = refl
  finished-held pk trx_hash (err e, s) = refl

  module _ (receiver_id : String) (actions : NearActions) (nowait included : Bool) where
    submit_signed-held :
        (pk : Bytes) (r : Raises (String × String)) (s : State net)
        → held (submit_signed prim net pk receiver_id nowait included r s).1 ≡ held s
    unfolding submit_signed
    submit_signed-held pk (err e) s = refl
    submit_signed-held pk (ok (trx_hash, tx)) s =
        finished-held pk trx_hash (send prim net receiver_id tx trx_hash nowait included s)
        ∙ (send-Keeps prim net held (λ s w. refl) receiver_id tx trx_hash nowait included).kept s

    with_nonce-held :
        (pk : Bytes) (r : Raises ℕ × State net)
        → held (with_nonce prim net pk receiver_id actions nowait included (plain prim net r)).1
          ≡ held r.1
    with_nonce-held pk (ok nonce, s) =
        submit_signed-held pk (signed prim net pk receiver_id actions nonce s) s
    with_nonce-held pk (err e, s) = refl

    submit_with-held :
        (pk : Bytes) (s : State net)
        → held (submit_with prim net pk receiver_id actions nowait included s).1 ≡ held s
    unfolding submit_with
    submit_with-held pk s =
        with_nonce-held pk (next_nonce prim net pk s)
        ∙ (next_nonce-Keeps prim net held held-Blind pk (λ n s. refl)).kept s

    -- A call that ends leaves the fields as they are.
    abbrev LeavesAs : Identity → Option (Result Failure Sent × State net) → Type 0
    LeavesAs i none = Unit
    LeavesAs i (some (r, s)) = held s ≡ i

    taken-held :
        (s : State net)
        → LeavesAs
            (held s)
            (submit_taken prim net receiver_id actions nowait included (take_signer prim net s))
    unfolding take_signer
    taken-held s = from s.account.free_signers refl
      where
        from :
            (l : List Bytes)
            → s.account.free_signers ≡ l
            → LeavesAs
                (held s)
                (submit_taken prim net receiver_id actions nowait included (take_signer prim net s))
        from [] e = rw e tt
        from (pk ∷ rest) e = rw e (submit_with-held pk _)

    fresh-held :
        (r : Raises (Unit {0}) × State net)
        → LeavesAs (held r.1) (submit_fresh prim net receiver_id actions nowait included r)
    unfolding submit_fresh
    fresh-held (ok _, s) = taken-held s
    fresh-held (err e, s) = refl

    by-held :
        (s : State net) (l : List Bytes)
        → LeavesAs (held s) (submit_by prim net receiver_id actions nowait included s l)
    by-held s [] = refl
    by-held s (pk ∷ rest) =
        subst
          (λ i. LeavesAs i (
            submit_fresh prim net receiver_id actions nowait included
              (update_last_block_hash prim net s)))
          ((update-Keeps prim net held held-Blind).kept s)
          (fresh-held (update_last_block_hash prim net s))

    pub sign_and_submit_tx-held :
        (s s' : State net) (r : Result Failure Sent)
        → sign_and_submit_tx prim net receiver_id actions nowait included s ≡ some (r, s')
        → held s' ≡ held s
    unfolding sign_and_submit_tx
    sign_and_submit_tx-held s s' r e = subst (LeavesAs (held s)) e (by-held s s.account.signers)

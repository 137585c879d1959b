-- ===== src/Account/Nonces.antt =====
-- The nonces that calls of src/py_near/account.py sign with, one after another.
pub mod Stored
use py_near.Base.{
  ℕ, suc, String, Bool, true, List, [], ◌∷◌, Result, ok, err, ◌≡◌, refl, ap, ◌∙◌, if◌then◌else◌,
  arith,
}
use py_near.Base.Method.{continued}
use py_near.Json.{Json, num}
use py_near.Errors.Exception.{Raises}
use py_near.Provider.Network.{Network}
use py_near.Transactions.{Bytes, NearActions, Primitives}
use py_near.Models.Keys.{AccountAccessKey}
use py_near.Account.Chain.{get_access_key}
use py_near.Account.State.{Account, State, nonce_of, same_bytes}
use py_near.Account.Kept.{send-Keeps}
use py_near.Account.Submit.{
  Sent, Failure, plus_one, is_zero, increment, next_nonce, store, send, finished, plain, signed,
  counted, submit_signed, submit_with, with_nonce, fetch_nonce,
}

same_bytes_refl : (pk : Bytes) → same_bytes pk pk ≡ true
unfolding same_bytes
same_bytes_refl [] = refl
same_bytes_refl (b ∷ bs) = ground (arith, same_bytes_refl bs)

pub nonce_of_stored :
    (pk : Bytes) (nonce : Json) (nonces : List (Bytes × Json))
    → nonce_of pk ((pk, nonce) ∷ nonces) ≡ nonce
unfolding nonce_of
nonce_of_stored pk nonce nonces = rw (same_bytes_refl pk)

module _ (prim : Primitives) (net : Network) (pk : Bytes) where
  -- The key has a nonce in the dictionary, after which the next one comes.
  abbrev pub HasNonce : ℕ → State net → Type 0
  HasNonce n s = nonce_of pk s.nonces ≡ num n

  increment-HasNonce :
      (n : ℕ) (s : State net)
      → HasNonce n s
      → increment prim net pk s ≡ (ok (suc n), store prim net pk (num (suc n)) s)
  unfolding increment plus_one
  increment-HasNonce n s h = ap (λ v. counted prim net pk s (plus_one v)) h

  pub next_nonce-HasNonce :
      (n : ℕ) (s : State net)
      → HasNonce (suc n) s
      → next_nonce prim net pk s ≡ (ok (suc (suc n)), store prim net pk (num (suc (suc n))) s)
  unfolding next_nonce is_zero
  next_nonce-HasNonce n s h =
      ap
        (λ v.
          if is_zero v
          then continued (λ _. increment prim net pk) (fetch_nonce prim net pk s)
          else increment prim net pk s)
        h
      ∙ increment-HasNonce (suc n) s h

  finished-nonces :
      (trx_hash : String) (r : Raises Sent × State net)
      → (finished prim net pk trx_hash r).1.nonces ≡ r.1.nonces
  finished-nonces trx_hash (ok sent, s) = refl
  finished-nonces trx_hash (err e, s) = refl

  pub submit_signed-nonces :
      (receiver_id : String) (nowait included : Bool) (r : Raises (String × String))
      → (s : State net)
      → (submit_signed prim net pk receiver_id nowait included r s).1.nonces ≡ s.nonces
  unfolding submit_signed
  submit_signed-nonces receiver_id nowait included (err e) s = refl
  submit_signed-nonces receiver_id nowait included (ok (trx_hash, tx)) s =
      finished-nonces trx_hash (send prim net receiver_id tx trx_hash nowait included s)
      ∙ (send-Keeps prim net (λ t. t.nonces) (λ t w. refl) receiver_id tx trx_hash nowait
            included).kept
          s

  -- A call with the key: receiver, actions, and the two flags.
  pub record Call : Type 0 where
    pub receiver_id : String
    pub actions : NearActions
    pub nowait : Bool
    pub included : Bool

  abbrev pub call : Call → State net → Result Failure Sent × State net
  call c = submit_with prim net pk c.receiver_id c.actions c.nowait c.included

  -- The call made with a given nonce.
  abbrev pub call_at : ℕ → Call → State net → Result Failure Sent × State net
  call_at n c s =
      let s' = store prim net pk (num n) s in
      submit_signed prim net pk c.receiver_id c.nowait c.included
        (signed prim net pk c.receiver_id c.actions n s') s'

  -- From `n` on, each call is made with one more than the one before it.
  abbrev pub InARow : ℕ → List Call → State net → Type 0
  InARow n [] s = HasNonce n s
  InARow n (c ∷ rest) s = (call c s ≡ call_at (suc n) c s) × InARow (suc n) rest (call c s).1

  call-HasNonce :
      (n : ℕ) (c : Call) (s : State net) → HasNonce (suc n) s → call c s ≡ call_at (suc (suc n)) c s
  unfolding submit_with
  call-HasNonce n c s h =
      ap
        (λ r. with_nonce prim net pk c.receiver_id c.actions c.nowait c.included (plain prim net r))
        (next_nonce-HasNonce n s h)

  after_call :
      (n : ℕ) (c : Call) (s : State net) → HasNonce (suc n) s → HasNonce (suc (suc n)) (call c s).1
  after_call n c s h =
      ap (λ r. nonce_of pk r.1.nonces) (call-HasNonce n c s h)
      ∙ ap (nonce_of pk) (submit_signed-nonces c.receiver_id c.nowait c.included _ _)
      ∙ nonce_of_stored pk _ _

  -- Once a key has a nonce, calls with it one after another sign with the numbers that follow it,
  -- one by one, whether they succeed or raise.
  pub calls-InARow :
      (n : ℕ) (calls : List Call) (s : State net) → HasNonce (suc n) s → InARow (suc n) calls s
  calls-InARow n [] s h = h
  calls-InARow n (c ∷ rest) s h =
      (call-HasNonce n c s h, calls-InARow (suc n) rest (call c s).1 (after_call n c s h))

  fetch_nonce-ok :
      (ak : AccountAccessKey) (s s' : State net)
      → get_access_key prim net pk s ≡ (ok ak, s')
      → fetch_nonce prim net pk s ≡ (ok tt, store prim net pk ak.nonce s')
  unfolding fetch_nonce
  fetch_nonce-ok ak s s' h = ap (continued λ k t. (ok tt, store prim net pk k.nonce t)) h

  -- A key without a nonce takes the one behind its access key's nonce, which is asked for once; the
  -- dictionary then holds the nonce that was taken.
  pub next_nonce_of_access_key :
      (n : ℕ) (ak : AccountAccessKey) (s s' : State net)
      → nonce_of pk s.nonces ≡ num 0
      → get_access_key prim net pk s ≡ (ok ak, s')
      → ak.nonce ≡ num n
      → let (nonce, s2) = next_nonce prim net pk s in
        (nonce ≡ ok (suc n)) × HasNonce (suc n) s2 × (s2.world ≡ s'.world)
  unfolding next_nonce is_zero
  next_nonce_of_access_key n ak s s' h asked e =
      let asks : next_nonce prim net pk s
          ≡ continued (λ _. increment prim net pk) (fetch_nonce prim net pk s) =
        ap
          (λ v.
            if is_zero v
            then continued (λ _. increment prim net pk) (fetch_nonce prim net pk s)
            else increment prim net pk s)
          h in
      let stored = store prim net pk ak.nonce s' in
      let all =
        asks
        ∙ ap (continued (λ _. increment prim net pk)) (fetch_nonce-ok ak s s' asked)
        ∙ increment-HasNonce n stored (nonce_of_stored pk ak.nonce s'.nonces ∙ e) in
      (
        ap (λ r. r.0) all,
        ap (λ r. nonce_of pk r.1.nonces) all ∙ nonce_of_stored pk (num (suc n)) _,
        ap (λ r. r.1.world) all,
      )

  -- A nonce that is in the dictionary is used for every account with the key: the account's own
  -- access key is not asked for.
  pub nonce_of_any_account :
      (n : ℕ) (s : State net) (a : Account)
      → HasNonce (suc n) s
      → let (nonce, s') = next_nonce prim net pk (record s { account = a }) in
        (nonce ≡ ok (suc (suc n))) × (s'.world ≡ s.world)
  nonce_of_any_account n s a h =
      let e = next_nonce-HasNonce n (record s { account = a }) h in
      (ap (λ r. r.0) e, ap (λ r. r.1.world) e)

-- ===== src/Account/Nonces/Stored.antt =====
-- The nonce that `sign_and_submit_tx` of src/py_near/account.py takes is the one that it stores.
use py_near.Base.{ℕ, Bool, true, false, ok, err, ok-injective, ◌≡◌, ap, ◌∙◌, if◌then◌else◌}
use py_near.Base.Method.{continued}
use py_near.Json.{num}
use py_near.Errors.Exception.{Raises}
use py_near.Provider.Network.{Network}
use py_near.Transactions.{Bytes, Primitives}
use py_near.Account.State.{State, nonce_of}
use py_near.Account.Submit.{plus_one, is_zero, increment, next_nonce, counted, fetch_nonce}
use py_near.Account.Nonces.{HasNonce, nonce_of_stored}

module _ (prim : Primitives) (net : Network) (pk : Bytes) where
  counted-HasNonce :
      (r : Raises ℕ) (s : State net) (n : ℕ)
      → (counted prim net pk s r).0 ≡ ok n
      → HasNonce prim net pk n (counted prim net pk s r).1
  counted-HasNonce (ok m) s n e = nonce_of_stored pk (num m) s.nonces ∙ ap num (ok-injective e)
  counted-HasNonce (err x) s n e = cc

  increment-stored :
      (s : State net) (n : ℕ)
      → (increment prim net pk s).0 ≡ ok n
      → HasNonce prim net pk n (increment prim net pk s).1
  unfolding increment
  increment-stored s = counted-HasNonce (plus_one (nonce_of pk s.nonces)) s

  fetched-stored :
      (r : Raises (Unit {0}) × State net) (n : ℕ)
      → (continued (λ _. increment prim net pk) r).0 ≡ ok n
      → HasNonce prim net pk n (continued (λ _. increment prim net pk) r).1
  fetched-stored (ok _, s) n e = increment-stored s n e
  fetched-stored (err x, s) n e = cc

  -- The nonce that is taken is stored.
  pub next_nonce-stored :
      (s : State net) (n : ℕ)
      → (next_nonce prim net pk s).0 ≡ ok n
      → HasNonce prim net pk n (next_nonce prim net pk s).1
  unfolding next_nonce
  next_nonce-stored s n =
      by_test (is_zero (nonce_of pk s.nonces)) _ _ (fetched-stored (fetch_nonce prim net pk s) n)
        (increment-stored s n)
    where
      by_test :
          (b : Bool) (x y : Raises ℕ × State net)
          → (x.0 ≡ ok n → HasNonce prim net pk n x.1)
          → (y.0 ≡ ok n → HasNonce prim net pk n y.1)
          → (if b then x else y).0 ≡ ok n
          → HasNonce prim net pk n (if b then x else y).1
      by_test true x y h h' = h
      by_test false x y h h' = h'

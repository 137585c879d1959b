-- ===== src/Account/Race.antt =====
-- Calls of src/py_near/account.py that run at once with one key, up to the nonce that each signs
-- with: other coroutines run only while a call waits for its access key.
use py_near.Base.{ℕ, suc, true, false, List, [], ◌∷◌, ok, ◌≡◌, refl}
use py_near.Json.{Json, num}
use py_near.Transactions.{Bytes}
use py_near.Account.State.{nonce_of}
use py_near.Account.Submit.{is_zero, plus_one}

-- The dictionary, the number of calls that wait for the access key, and the nonces that were taken,
-- the last one first.
pub record Race : Type 0 where
  pub nonces : List (Bytes × Json)
  pub waiting : ℕ
  pub taken : List ℕ

module _ (pk : Bytes) where
  -- A call that finds a nonce takes the next one at once; a call that finds none waits; a call that
  -- waited stores the nonce of the access key and takes the next one.
  pub data Step : Race → Race → Type 0 where
    direct :
        (r : Race) (n : ℕ)
        → is_zero (nonce_of pk r.nonces) ≡ false
        → plus_one (nonce_of pk r.nonces) ≡ ok n
        → Step r
            (record { nonces = (pk, num n) ∷ r.nonces; waiting = r.waiting; taken = n ∷ r.taken })
    ask :
        (r : Race)
        → is_zero (nonce_of pk r.nonces) ≡ true
        → Step r (record r { waiting = suc r.waiting })
    answer :
        (nonces : List (Bytes × Json)) (waiting : ℕ) (taken : List ℕ) (nonce : Json) (n : ℕ)
        → plus_one nonce ≡ ok n
        → Step
            (record { nonces = nonces; waiting = suc waiting; taken = taken })
            (record {
              nonces = (pk, num n) ∷ (pk, nonce) ∷ nonces;
              waiting = waiting;
              taken = n ∷ taken;
            })

  pub data Reaches : Race → Race → Type 0 where
    stop : (r : Race) → Reaches r r
    go : {r r' r'' : Race} → Step r r' → Reaches r' r'' → Reaches r r''

  -- Two calls that start before the key has a nonce can take the same one, whatever the nonce of
  -- the access key is.
  pub cold_calls_collide :
      (n : ℕ)
      → (r : Race) × Reaches (record { nonces = []; waiting = 0; taken = [] }) r
        × (r.taken ≡ suc n ∷ suc n ∷ [])
  unfolding nonce_of is_zero plus_one
  cold_calls_collide n = (
    _,
    go (ask _ refl) (
        go (ask _ refl) (
          go (answer [] 1 [] (num n) (suc n) refl)
            (go (answer _ 0 (suc n ∷ []) (num n) (suc n) refl) (stop _)))),
    refl,
  )

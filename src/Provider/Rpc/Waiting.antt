-- ===== src/Provider/Rpc/Waiting.antt =====
-- `wait_for_trx`, `send_tx_and_wait` and `send_tx_included` of src/py_near/providers.py.
use py_near.Base.{
  ℕ, zero, suc, ◌+◌, String, false, Option, Result, ok, err, ◌≡◌, refl, arith, ◌∙◌, ap, ◌⊎◌, inl,
  inr, Result-cases, none, some, str_eq, ◌≢◌,
}
use py_near.Errors.Classes.{rpc_timeout_error, invalid_nonce}
use py_near.Errors.Exception.{Exception, caught_by}
use py_near.Models.Results.{TransactionResult}
use py_near.Provider.Network.{Network}
use py_near.Provider.Client.{JsonProvider}
use py_near.Provider.Rpc.{
  get_tx, wait_rounds, wait_for_trx, send_tx_and_wait, send_tx_included, not_found,
}

module _ (net : Network) (p : JsonProvider) (trx_hash receiver_id : String) where
  open net use {World, sleep}

  -- One round: five seconds of sleep, then a look.
  abbrev pub round : World → Result Exception TransactionResult × World
  round w = get_tx net p trx_hash receiver_id (sleep 5 w)

  abbrev pub after_rounds : ℕ → World → World
  after_rounds zero w = w
  after_rounds (suc n) w = after_rounds n (round w).1

  -- The first rounds find nothing: each of them raises.
  abbrev pub AllFail : ℕ → World → Type 0
  AllFail zero w = Unit
  AllFail (suc n) w = ((e : Exception) × ((round w).0 ≡ err e)) × AllFail n (round w).1

  wait-fails :
      (n : ℕ) (w : World) (e : Exception)
      → (round w).0 ≡ err e
      → wait_rounds net (suc n) p trx_hash receiver_id w
        ≡ wait_rounds net n p trx_hash receiver_id (round w).1
  unfolding wait_rounds
  wait-fails n w e h = rw (h, wait_rounds)

  wait-finds :
      (n : ℕ) (w : World) (r : TransactionResult)
      → (round w).0 ≡ ok r
      → wait_rounds net (suc n) p trx_hash receiver_id w ≡ (ok r, (round w).1)
  unfolding wait_rounds
  wait-finds n w r h = rw (h, wait_rounds)

  -- The end of at most `n` rounds: the first round that finds the transaction gives the result, and
  -- an `RPCTimeoutError` is raised when all of them have raised.
  abbrev pub EndsAsFound : ℕ → World → Result Exception TransactionResult × World → Type 0
  EndsAsFound n w end =
      ((k left : ℕ) × (r : TransactionResult) × (k + suc left ≡ n)
        × AllFail k w
        × ((round (after_rounds k w)).0 ≡ ok r)
        × (end ≡ (ok r, (round (after_rounds k w)).1)))
      ⊎ (AllFail n w × (end ≡ (err not_found, after_rounds n w)))

  wait_rounds-EndsAsFound :
      (n : ℕ) (w : World) → EndsAsFound n w (wait_rounds net n p trx_hash receiver_id w)
  wait_rounds-EndsAsFound zero w = inr (tt, unfold wait_rounds in refl)
  wait_rounds-EndsAsFound (suc n) w =
      step (Result-cases (round w).0) (wait_rounds-EndsAsFound n (round w).1)
    where
      step :
          ((r : TransactionResult) × ((round w).0 ≡ ok r))
            ⊎ ((e : Exception) × ((round w).0 ≡ err e))
          → EndsAsFound n (round w).1 (wait_rounds net n p trx_hash receiver_id (round w).1)
          → EndsAsFound (suc n) w (wait_rounds net (suc n) p trx_hash receiver_id w)
      step (inl (r, h)) rest = inl (0, n, r, omega arith, tt, h, wait-finds n w r h)
      step (inr (e, h)) (inl (k, left, r, q, f, found, res)) =
          inl (suc k, left, r, omega arith, ((e, h), f), found, wait-fails n w e h ∙ res)
      step (inr (e, h)) (inr (f, res)) = inr (((e, h), f), wait-fails n w e h ∙ res)

  -- `wait_for_trx` looks at most six times and always ends: it returns the first result that a look
  -- finds, and raises an `RPCTimeoutError` when six looks have raised.
  pub wait_for_trx-EndsAsFound :
      (w : World) → EndsAsFound 6 w (wait_for_trx net p trx_hash receiver_id w)
  unfolding wait_for_trx
  wait_for_trx-EndsAsFound w = wait_rounds-EndsAsFound 6 w

  wait_for_trx-raises :
      (w : World) (e : Exception)
      → (wait_for_trx net p trx_hash receiver_id w).0 ≡ err e
      → e ≡ not_found
  wait_for_trx-raises w e h = from (wait_for_trx-EndsAsFound w)
    where
      from : EndsAsFound 6 w (wait_for_trx net p trx_hash receiver_id w) → e ≡ not_found
      from (inl (k, left, r, q, f, found, res)) = cc (ap (λ x. x.0) res)
      from (inr (f, res)) = cc (ap (λ x. x.0) res)

module _ (net : Network) (p : JsonProvider) (signed_tx : String) where
  open net use {World}

  -- `send_tx_included` never raises an `InvalidNonce`.
  pub send_tx_included_nonce :
      (w : World) (e : Exception)
      → (send_tx_included net p signed_tx w).0 ≡ err e
      → caught_by invalid_nonce e ≡ false
  unfolding send_tx_included
  send_tx_included_nonce w e h = ground arith

  -- What `send_tx_and_wait` raises is no timeout of a node's, but for its own after the last look.
  pub send_tx_and_wait_timeout :
      (trx_hash receiver_id : Option String) (w : World) (e : Exception)
      → (send_tx_and_wait net p signed_tx trx_hash receiver_id w).0 ≡ err e
      → (caught_by rpc_timeout_error e ≡ false) ⊎ (e ≡ not_found)
  unfolding send_tx_and_wait
  send_tx_and_wait_timeout trx_hash receiver_id w e h = grind (arith, wait_for_trx-raises)

  -- `send_tx_and_wait` with a hash and a receiver that are not empty does not return `None`.
  pub send_tx_and_wait_found :
      (trx_hash receiver_id : String) (w : World)
      → str_eq trx_hash "" ≡ false
      → str_eq receiver_id "" ≡ false
      → (send_tx_and_wait net p signed_tx (some trx_hash) (some receiver_id) w).0 ≢ ok none
  unfolding send_tx_and_wait
  send_tx_and_wait_found trx_hash receiver_id w h k e = ground arith

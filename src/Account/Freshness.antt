-- ===== src/Account/Freshness.antt =====
-- How old the block hash is that `_update_last_block_hash` of src/py_near/account.py leaves.
use py_near.Base.{ℕ, ◌+◌, ◌<◌, Bool, true, false, ok, ◌≡◌, refl, ltb, arith, if◌then◌else◌}
use py_near.Errors.Exception.{Raises}
use py_near.Utils.{timestamp}
use py_near.Provider.Network.{Network}
use py_near.Transactions.{Primitives}
use py_near.Account.State.{State}
use py_near.Account.Effects.{Ends, >>=-Ends}
use py_near.Account.Chain.{
  max_age, stamp, set_hash, set_height, sync_info, refresh, update_last_block_hash,
}

module _ (prim : Primitives) (net : Network) where
  abbrev pub IsFresh : State net → Type 0
  IsFresh s = timestamp net s.world < s.account.latest_block_hash_ts + max_age

  stamp-IsFresh : Ends net IsFresh (stamp prim net)
  stamp-IsFresh = record { ends = λ s a e. omega arith }

  refresh-IsFresh : Ends net IsFresh (refresh prim net)
  unfolding refresh
  refresh-IsFresh = >>=-Ends net IsFresh (sync_info prim net "latest_block_hash") _ (λ hash.
      >>=-Ends net IsFresh (set_hash prim net hash) _ (λ _.
        >>=-Ends net IsFresh (sync_info prim net "latest_block_height") _
          (λ height. >>=-Ends net IsFresh (set_height prim net height) _ (λ _. stamp-IsFresh))))

  branch :
      (s : State net) (b : Bool) (r : Raises (Unit {0}) × State net)
      → (b ≡ true → IsFresh s)
      → (r.0 ≡ ok tt → IsFresh r.1)
      → (if b then (ok tt, s) else r).0 ≡ ok tt
      → IsFresh (if b then (ok tt, s) else r).1
  branch s true r young renewed e = young refl
  branch s false r young renewed e = renewed e

  ltb→lt : (a b : ℕ) → ltb a b ≡ true → a < b
  ltb→lt a b h = ground arith

  -- When the update of the block hash ends without an exception, the time stamp that it leaves is
  -- less than fifty seconds behind the clock.
  pub update_last_block_hash-IsFresh :
      (s : State net)
      → (update_last_block_hash prim net s).0 ≡ ok tt
      → IsFresh (update_last_block_hash prim net s).1
  unfolding update_last_block_hash
  update_last_block_hash-IsFresh s e =
      branch s _ (refresh prim net s) (ltb→lt _ _) (refresh-IsFresh.ends s tt) e

-- ===== src/Account/Kept/Steps.antt =====
-- What the steps of `sign_and_submit_tx` of src/py_near/account.py before the signing leave as it is.
use py_near.Base.{ℕ, String, Bool, true, false, ok, err, ◌≡◌, refl, if◌then◌else◌}
use py_near.Json.{Json, num}
use py_near.Errors.Exception.{Raises}
use py_near.Provider.Network.{Network}
use py_near.Transactions.{Bytes, Primitives}
use py_near.Account.State.{State, nonce_of}
use py_near.Account.Effects.{Keeps, >>=-Keeps}
use py_near.Account.Kept.{sync_info-Keeps, get_access_key-Keeps}
use py_near.Account.Chain.{
  set_hash, set_height, stamp, update_last_block_hash, refresh, get_access_key, sync_info,
}
use py_near.Account.Submit.{plus_one, increment, fetch_nonce, counted, next_nonce, store}

module _ (prim : Primitives) (net : Network) {X : Type 0} (f : State net → X) where
  -- `f` reads neither the network nor the block hash with its time and height.
  pub record Blind : Type 0 where
    pub world : (s : State net) (w : net.World) → f (record s { world = w }) ≡ f s
    pub hash : (h : Json) → Keeps net f (set_hash prim net h)
    pub height : (h : Json) → Keeps net f (set_height prim net h)
    pub time : Keeps net f (stamp prim net)

  -- `f` does not read the nonce of a key.
  abbrev pub BlindTo : Bytes → Type 0
  BlindTo pk = (n : Json) (s : State net) → f (store prim net pk n s) ≡ f s

  if-Keeps :
      {A : Type 0} (b : Bool) (r r' : Raises A × State net) (s : State net)
      → f r.1 ≡ f s
      → f r'.1 ≡ f s
      → f (if b then r else r').1 ≡ f s
  if-Keeps true r r' s h h' = h
  if-Keeps false r r' s h h' = h'

  module _ (blind : Blind) where
    info-Keeps : (key : String) → Keeps net f (sync_info prim net key)
    info-Keeps key = sync_info-Keeps prim net f blind.world key

    refresh-Keeps : Keeps net f (refresh prim net)
    unfolding refresh
    refresh-Keeps =
        >>=-Keeps net f (sync_info prim net "latest_block_hash") _ (info-Keeps _) (λ hash.
          >>=-Keeps net f (set_hash prim net hash) _ (blind.hash hash) (λ _.
            >>=-Keeps net f (sync_info prim net "latest_block_height") _ (info-Keeps _) (λ height.
              >>=-Keeps net f (set_height prim net height) _ (blind.height height)
                (λ _. blind.time))))

    pub update-Keeps : Keeps net f (update_last_block_hash prim net)
    unfolding update_last_block_hash
    update-Keeps = record {
      kept = λ s. if-Keeps _ (ok tt, s) (refresh prim net s) s refl (refresh-Keeps.kept s);
    }

    fetch_nonce-Keeps : (pk : Bytes) → BlindTo pk → Keeps net f (fetch_nonce prim net pk)
    unfolding fetch_nonce
    fetch_nonce-Keeps pk stored =
        >>=-Keeps net f (get_access_key prim net pk) _
          (get_access_key-Keeps prim net f blind.world pk)
          (λ access_key. record { kept = stored access_key.nonce })

    counted-Keeps :
        (pk : Bytes)
        → BlindTo pk
        → (s : State net) (r : Raises ℕ) → f (counted prim net pk s r).1 ≡ f s
    counted-Keeps pk stored s (ok n) = stored (num n) s
    counted-Keeps pk stored s (err e) = refl

    increment-Keeps : (pk : Bytes) → BlindTo pk → Keeps net f (increment prim net pk)
    unfolding increment
    increment-Keeps pk stored = record {
      kept = λ s. counted-Keeps pk stored s (plus_one (nonce_of pk s.nonces));
    }

    pub next_nonce-Keeps : (pk : Bytes) → BlindTo pk → Keeps net f (next_nonce prim net pk)
    unfolding next_nonce
    next_nonce-Keeps pk stored = record {
      kept = λ s.
          if-Keeps _ _ _ s
            ((>>=-Keeps net f (fetch_nonce prim net pk) _ (fetch_nonce-Keeps pk stored)
                (λ _. increment-Keeps pk stored)).kept
              s)
            ((increment-Keeps pk stored).kept s);
    }

-- ===== src/Account/Delegate/Created.antt =====
-- What `create_delegate_action` of src/py_near/account.py makes.
use py_near.Base.{
  ℕ, ◌+◌, String, Option, some, List, ok, ◌≡◌, refl, sym, ap, ◌∙◌, subst, or_raise, ok-injective,
  err-ne-ok, err,
}
use py_near.Json.{Json}
use py_near.Python.{number_of}
use py_near.Errors.Exception.{Raises, value_error}
use py_near.Models.Keys.{AccountAccessKey}
use py_near.Provider.Network.{Network}
use py_near.Transactions.{Bytes, NearActions, DelegateAction, Primitives, public_key_of}
use py_near.Account.State.{State}
use py_near.Account.Effects.{continued-returns}
use py_near.Account.Freshness.{IsFresh, update_last_block_hash-IsFresh}
use py_near.Account.Kept.{get_access_key-Keeps}
use py_near.Account.Kept.Steps.{Blind, update-Keeps}
use py_near.Account.Chain.{get_access_key, update_last_block_hash}
use py_near.Account.Submit.{plus_one}
use py_near.Account.Delegate.{
  DelegateActionModel, near_with, near_delegate_action, delegating_key, height_after,
  create_delegate_action,
}

height_after-ok :
    (v : Json) (n : ℕ) → height_after v ≡ ok n → (h : ℕ) × (number_of v ≡ ok h) × (n ≡ h + 1000)
unfolding height_after
height_after-ok v n e = from (number_of v) e
  where
    from :
        (r : Raises ℕ)
        → (elim r as (λ r. Raises ℕ) [ err x ↦ err x | ok h ↦ ok (h + 1000) ]) ≡ ok n
        → (h : ℕ) × (r ≡ ok h) × (n ≡ h + 1000)
    from (ok h) e = (h, refl, sym (ok-injective e))
    from (err x) e = elim (err-ne-ok e) [ ]

near_delegate_action-encoded :
    (prim : Primitives) (m : DelegateActionModel) (key : Bytes)
    → prim.b58decode (prim.b58encode key) ≡ some key
    → m.public_key ≡ prim.b58encode key
    → near_delegate_action prim m
      ≡ prim.delegate_action m.sender_id m.receiver_id m.actions m.nonce m.max_block_height key
unfolding near_delegate_action
near_delegate_action-encoded prim m key reads e =
    ap (λ o. near_with prim m (or_raise o value_error)) (ap (prim.b58decode) e ∙ reads)

module _ (prim : Primitives) (net : Network) where
  -- The name and the nonces, which neither a question nor a new block hash changes.
  abbrev named : State net → String × List (Bytes × Json)
  named s = (s.account.account_id, s.nonces)

  named-Blind : Blind prim net named
  named-Blind = record {
    world = λ s w. refl;
    hash = λ h. record { kept = λ s. refl };
    height = λ h. record { kept = λ s. refl };
    time = record { kept = λ s. refl };
  }

  prepared-named :
      (pk : Bytes) (s : State net)
      → named (update_last_block_hash prim net (get_access_key prim net pk s).1).1 ≡ named s
  prepared-named pk s =
      (update-Keeps prim net named named-Blind).kept (get_access_key prim net pk s).1
      ∙ (get_access_key-Keeps prim net named (λ s w. refl) pk).kept s

  -- The model `m`, which a call in `s` returns with the state `s'`. It is read on as the delegate
  -- action of the account for the public key of the private key that was picked, with the number
  -- behind the nonce of its access key, until a thousand blocks after the height that is held. The
  -- time stamp of that height is less than fifty seconds behind the clock, and the nonces are as
  -- before.
  abbrev pub Created :
      NearActions → String → Option String → State net → DelegateActionModel → State net → Type 0
  Created actions receiver_id key s m s' =
      (pk : Bytes) × (delegating_key key s.account ≡ ok pk)
      × (verifying_key : Bytes) × (public_key_of prim pk ≡ ok verifying_key)
      × (access_key : AccountAccessKey) × ((get_access_key prim net pk s).0 ≡ ok access_key)
      × (nonce : ℕ) × (plus_one access_key.nonce ≡ ok nonce)
      × (height : ℕ) × (number_of s'.account.latest_block_height ≡ ok height)
      × (near_delegate_action prim m
          ≡ prim.delegate_action s.account.account_id receiver_id actions nonce (height + 1000)
              verifying_key)
      × IsFresh prim net s'
      × (s'.nonces ≡ s.nonces)

  -- If base58 decodes what it encoded, near_delegate_action of a model that create_delegate_action
  -- returns is what DelegateAction makes of the account's name, the receiver, the actions, the number
  -- behind the access key's nonce, a thousand blocks more than the height that is held, and the public
  -- key of the picked private key. The time stamp that is held with the height is less than fifty
  -- seconds behind the clock, and no nonce is taken.
  pub create_delegate_action-Created :
      (actions : NearActions) (receiver_id : String) (key : Option String) (s : State net)
      (m : DelegateActionModel) (s' : State net)
      → ((bs : Bytes) → prim.b58decode (prim.b58encode bs) ≡ some bs)
      → create_delegate_action prim net actions receiver_id key s ≡ (ok m, s')
      → Created actions receiver_id key s m s'
  unfolding create_delegate_action
  create_delegate_action-Created actions receiver_id key s m s' reads h =
      let (pk, picked, h1) = continued-returns net _ (delegating_key key s.account, s) s' m h in
      let (access_key, asked, h2) =
        continued-returns net _ (get_access_key prim net pk s) s' m h1 in
      let s1 : State net = (get_access_key prim net pk s).1 in
      let (_, updated, h3) = continued-returns net _ (update_last_block_hash prim net s1) s' m h2 in
      let s2 : State net = (update_last_block_hash prim net s1).1 in
      let (verifying_key, verified, h4) =
        continued-returns net _ (public_key_of prim pk, s2) s' m h3 in
      let (nonce, counted, h5) = continued-returns net _ (plus_one access_key.nonce, s2) s' m h4 in
      let (max_height, measured, h6) =
        continued-returns net _ (height_after s2.account.latest_block_height, s2) s' m h5 in
      let (height, held, above) = height_after-ok _ max_height measured in
      let same : s2 ≡ s' = ap (λ p. p.1) h6 in
      let kept : named s2 ≡ named s = prepared-named pk s in
      let delegated : String → ℕ → Raises DelegateAction =
        (λ id n. prim.delegate_action id receiver_id actions nonce n verifying_key) in
      (
        pk,
        picked,
        verifying_key,
        verified,
        access_key,
        asked,
        nonce,
        counted,
        height,
        ap (λ s. number_of s.account.latest_block_height) (sym same) ∙ held,
        ap (near_delegate_action prim) (sym (ok-injective (ap (λ p. p.0) h6)))
            ∙ near_delegate_action-encoded prim _ verifying_key (reads verifying_key) refl
            ∙ ap (λ id. delegated id max_height) (ap (λ p. p.0) kept)
            ∙ ap (delegated s.account.account_id) above,
        subst (IsFresh prim net) same (update_last_block_hash-IsFresh prim net s1 updated),
        ap (λ s. s.nonces) (sym same) ∙ ap (λ p. p.1) kept,
      )

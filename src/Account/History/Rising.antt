-- ===== src/Account/History/Rising.antt =====
-- The nonce of a key over any number of calls of `sign_and_submit_tx` of src/py_near/account.py, with
-- whatever keys they take.
use mathlib.Core.Path.{ap₂}
use py_near.Base.{
  ℕ, suc, ◌+◌, ◌≤◌, String, Bool, true, false, Option, none, some, List, [], ◌∷◌, length, Result,
  ok, err, ◌==◌, ◌≡◌, refl, sym, ap, ◌∙◌, subst, arith, inl, inr, Bool-cases,
}
use py_near.Json.{Json}
use py_near.Errors.Exception.{Raises}
use py_near.Provider.Network.{Network}
use py_near.Transactions.{Bytes, NearActions, Primitives}
use py_near.Account.State.{State, same_bytes, nonce_of}
use py_near.Account.Kept.Steps.{Blind, BlindTo, update-Keeps, next_nonce-Keeps}
use py_near.Account.Nonces.{HasNonce, nonce_of_stored, next_nonce-HasNonce, submit_signed-nonces}
use py_near.Account.Chain.{update_last_block_hash}
use py_near.Account.Submit.{
  Sent, Failure, next_nonce, plain, signed, submit_with, submit_by, with_nonce, submit_taken,
  take_signer, submit_fresh, sign_and_submit_tx,
}
use py_near.Account.History.Ready.{Arguments, Runs, stop, step}

eq_heads : (x y : ℕ) → (x == y) ≡ true → x ≡ y
eq_heads x y h = ground arith

same_bytes-eq : (a b : Bytes) → same_bytes a b ≡ true → a ≡ b
unfolding same_bytes
same_bytes-eq [] [] h = refl
same_bytes-eq (x ∷ a) (y ∷ b) h = elim (Bool-cases (x == y)) [
  | inl heads ↦ ap₂ ◌∷◌ (eq_heads x y heads) (same_bytes-eq a b (rw heads at h))
  | inr differ ↦ absurd (let q : false ≡ true = rw differ at h in cc)
]
same_bytes-eq [] (y ∷ b) h = cc
same_bytes-eq (x ∷ a) [] h = cc

module _ (prim : Primitives) (net : Network) (pk : Bytes) where
  abbrev held : State net → Json
  held s = nonce_of pk s.nonces

  held-Blind : Blind prim net held
  held-Blind = record {
    world = λ s w. refl;
    hash = λ h. record { kept = λ s. refl };
    height = λ h. record { kept = λ s. refl };
    time = record { kept = λ s. refl };
  }

  -- The nonce of another key is not read.
  held-BlindTo : (key : Bytes) → same_bytes key pk ≡ false → BlindTo prim net held key
  unfolding nonce_of
  held-BlindTo key other n s = rw other refl

  -- The key has a nonce that is at least `n` and at most `n` and so many more.
  abbrev pub Risen : ℕ → ℕ → State net → Type 0
  Risen more n s = (m : ℕ) × HasNonce prim net pk (suc m) s × (n ≤ m) × (m ≤ n + more)

  next_nonce-Risen :
      (key : Bytes) (n : ℕ) (s : State net)
      → HasNonce prim net pk (suc n) s
      → Risen 1 n (next_nonce prim net key s).1
  next_nonce-Risen key n s h = elim (Bool-cases (same_bytes key pk)) [
    | inl same ↦
        subst (λ k. Risen 1 n (next_nonce prim net k s).1) (sym (same_bytes-eq key pk same))
          (
            suc n,
            ap (λ r. nonce_of pk r.1.nonces) (next_nonce-HasNonce prim net pk n s h)
                ∙ nonce_of_stored pk _ _,
            omega arith,
            omega arith,
          )
    | inr other ↦ (
      n,
      (next_nonce-Keeps prim net held held-Blind key (held-BlindTo key other)).kept s ∙ h,
      omega arith,
      omega arith,
    )
  ]

  module _ (receiver_id : String) (actions : NearActions) (nowait included : Bool) where
    with_nonce-nonces :
        (key : Bytes) (r : Raises ℕ × State net)
        → (with_nonce prim net key receiver_id actions nowait included (plain prim net r)).1.nonces
          ≡ r.1.nonces
    with_nonce-nonces key (err e, s) = refl
    with_nonce-nonces key (ok nonce, s) =
        submit_signed-nonces prim net key receiver_id nowait included
          (signed prim net key receiver_id actions nonce s) s

    submit_with-Risen :
        (key : Bytes) (n : ℕ) (s : State net)
        → HasNonce prim net pk (suc n) s
        → Risen 1 n (submit_with prim net key receiver_id actions nowait included s).1
    unfolding submit_with
    submit_with-Risen key n s h =
        let (m, has, low, high) = next_nonce-Risen key n s h in
        (m, ap (nonce_of pk) (with_nonce-nonces key (next_nonce prim net key s)) ∙ has, low, high)

    -- The state after a call that ends.
    abbrev EndRisen : ℕ → Option (Result Failure Sent × State net) → Type 0
    EndRisen n none = Unit
    EndRisen n (some (r, s)) = Risen 1 n s

    same-Risen : (n : ℕ) (s : State net) → HasNonce prim net pk (suc n) s → Risen 1 n s
    same-Risen n s h = (n, h, omega arith, omega arith)

    taken-Risen :
        (n : ℕ) (s : State net)
        → HasNonce prim net pk (suc n) s
        → EndRisen n
            (submit_taken prim net receiver_id actions nowait included (take_signer prim net s))
    unfolding take_signer
    taken-Risen n s h = from s.account.free_signers refl
      where
        from :
            (l : List Bytes)
            → s.account.free_signers ≡ l
            → EndRisen n
                (submit_taken prim net receiver_id actions nowait included (take_signer prim net s))
        from [] e = rw e tt
        from (key ∷ rest) e = rw e (submit_with-Risen key n _ h)

    fresh-Risen :
        (n : ℕ) (r : Raises (Unit {0}) × State net)
        → HasNonce prim net pk (suc n) r.1
        → EndRisen n (submit_fresh prim net receiver_id actions nowait included r)
    unfolding submit_fresh
    fresh-Risen n (ok _, s) h = taken-Risen n s h
    fresh-Risen n (err e, s) h = same-Risen n s h

    by-Risen :
        (n : ℕ) (s : State net) (l : List Bytes)
        → HasNonce prim net pk (suc n) s
        → EndRisen n (submit_by prim net receiver_id actions nowait included s l)
    by-Risen n s [] h = same-Risen n s h
    by-Risen n s (key ∷ rest) h =
        fresh-Risen n (update_last_block_hash prim net s)
          ((update-Keeps prim net held held-Blind).kept s ∙ h)

    sign_and_submit_tx-Risen :
        (n : ℕ) (s s' : State net) (r : Result Failure Sent)
        → HasNonce prim net pk (suc n) s
        → sign_and_submit_tx prim net receiver_id actions nowait included s ≡ some (r, s')
        → Risen 1 n s'
    unfolding sign_and_submit_tx
    sign_and_submit_tx-Risen n s s' r h e = subst (EndRisen n) e (by-Risen n s s.account.signers h)

  -- Over any calls of an account, with whatever keys they sign and whether they return or raise, the
  -- nonce of a key that has one other than zero never falls, and rises by at most one for each call.
  pub Runs-Risen :
      {calls : List Arguments} {s s' : State net} {rs : List (Result Failure Sent)}
      → Runs prim net calls s rs s'
      → (n : ℕ) → HasNonce prim net pk (suc n) s
      → Risen (length calls) n s'
  Runs-Risen (stop s) n h = (n, h, omega arith, omega arith)
  Runs-Risen (step {c} {calls} {s} {s'} {r = r} e runs) n h =
      let (m, has, low, high) =
        sign_and_submit_tx-Risen c.receiver_id c.actions c.nowait c.included n s s' r h e in
      let (m', has', low', high') = Runs-Risen runs m has in
      (m', has', omega (arith, low, low'), omega (arith, high, high'))

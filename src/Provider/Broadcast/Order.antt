-- ===== src/Provider/Broadcast/Order.antt =====
-- That the order in which tasks end does not matter to the threshold of `call_rpc_request` of
-- src/py_near/providers.py.
use mathlib.Core.Logic.{∥∥₁_elim}
use mathlib.Core.Path.{ap₂}
use mathlib.Core.List.{Perm, Permᴰ, append_assoc}
use native.Mathlib.Nat.{ℕ_set}
use py_near.Base.{
  ℕ, ◌+◌, ◌*◌, ◌≤◌, ◌<◌, false, List, [], ◌∷◌, ◌++◌, length, ◌==◌, ok, err, ◌≡◌, refl, arith, ◌⊎◌,
  inl, inr, ap, sym, ◌∙◌, subst, Bool-cases,
}
use py_near.Json.{Json}
use py_near.Errors.Exception.{Raises, rpc_empty_response}
use py_near.Provider.Network.{Network}
use py_near.Provider.Broadcast.{broadcast_loop, at_start}
use py_near.Provider.Broadcast.Agreement.{
  kept, recorded, raises, bad, good, answer, votes, votes-append,
}
use py_near.Provider.Broadcast.Threshold.{
  all_recorded, joined, Verdict, threshold_exact, length-recorded,
}

-- What one task adds to the responses.
abbrev alone : Raises Json → List Json
alone r = recorded (r ∷ [])

recorded-cons :
    (r : Raises Json) (done : List (Raises Json)) → recorded (r ∷ done) ≡ alone r ++ recorded done
recorded-cons (err e) done = refl
recorded-cons (ok v) done = elim (answer v) [
  | raises e c ↦ rw (c, kept) refl
  | bad c ↦ rw (c, kept) refl
  | good c ↦ rw (c, kept) refl
]

recorded-append : (l r : List (Raises Json)) → recorded (l ++ r) ≡ recorded l ++ recorded r
recorded-append [] r = refl
recorded-append (x ∷ l) r =
    recorded-cons x (l ++ r)
    ∙ ap (λ rest. alone x ++ rest) (recorded-append l r)
    ∙ sym (append_assoc (alone x) (recorded l) (recorded r))
    ∙ ap (λ front. front ++ recorded r) (sym (recorded-cons x l))

all_recorded-joined :
    (waves : List (List (Raises Json))) → all_recorded waves ≡ recorded (joined waves)
all_recorded-joined [] = refl
all_recorded-joined (done ∷ waves) =
    ap (λ rest. recorded done ++ rest) (all_recorded-joined waves)
    ∙ sym (recorded-append done (joined waves))

module _ (net : Network) where
  open net use {digest}

  -- How many tasks give a response with the hash.
  abbrev pub ballots : ℕ → List (Raises Json) → ℕ
  ballots h done = votes net h (recorded done)

  ballots-cons :
      (h : ℕ) (r : Raises Json) (done : List (Raises Json))
      → ballots h (r ∷ done) ≡ votes net h (alone r) + ballots h done
  ballots-cons h r done =
      ap (votes net h) (recorded-cons r done) ∙ votes-append net h (alone r) (recorded done)

  ballots-Permᴰ : (h : ℕ) {l r : List (Raises Json)} → Permᴰ l r → ballots h l ≡ ballots h r
  ballots-Permᴰ h Permᴰ.nil = refl
  ballots-Permᴰ h (Permᴰ.cons {a} {b} {l₁} {l₂} e p) =
      ballots-cons h a l₁
      ∙ ap₂ (λ x k. votes net h (alone x) + k) e (ballots-Permᴰ h p)
      ∙ sym (ballots-cons h b l₂)
  ballots-Permᴰ h (Permᴰ.swap {a} {b} {a'} {b'} {l} e e') = omega (
    arith,
    ballots-cons h a (b ∷ l),
    ballots-cons h b l,
    ballots-cons h a' (b' ∷ l),
    ballots-cons h b' l,
    ap (λ x. votes net h (alone x)) e,
    ap (λ x. votes net h (alone x)) e',
  )
  ballots-Permᴰ h (Permᴰ.trans p q) = ballots-Permᴰ h p ∙ ballots-Permᴰ h q

  pub ballots-Perm : (h : ℕ) {l r : List (Raises Json)} → Perm l r → ballots h l ≡ ballots h r
  ballots-Perm h p = ∥∥₁_elim p (ℕ_set _ _) (ballots-Permᴰ h)

  -- Responses with two hashes are different responses.
  votes-two :
      (h h' : ℕ) (rs : List Json) → (h == h') ≡ false → votes net h rs + votes net h' rs ≤ length rs
  votes-two h h' [] e = omega arith
  votes-two h h' (v ∷ rs) e = ground (arith, votes-two h h' rs e)

  -- Both raise, or both return a response; with `n` tasks and a threshold of more than half of them
  -- the two responses have one hash.
  abbrev pub SameEnd : ℕ → ℕ → Raises Json → Raises Json → Type 0
  SameEnd n t r r' =
      ((v v' : Json) × (r ≡ ok v) × (r' ≡ ok v') × (n < 2 * t → digest v ≡ digest v'))
      ⊎ ((r ≡ err rpc_empty_response) × (r' ≡ err rpc_empty_response))

  pub one_majority :
      (t h h' : ℕ) (l r : List (Raises Json))
      → Perm l r
      → t ≤ ballots h l
      → t ≤ ballots h' r
      → length l < 2 * t
      → h ≡ h'
  one_majority t h h' l r p enough enough' few = elim (Bool-cases (h == h')) [
    | inl same ↦ ground arith
    | inr other ↦
        absurd
          (omega (arith, votes-two h h' (recorded l) other, ballots-Perm h' p, length-recorded l))
  ]

  verdicts :
      (t : ℕ) (l r : List (Raises Json)) (a b : Raises Json)
      → Perm l r
      → Verdict net t (recorded l) a
      → Verdict net t (recorded r) b
      → SameEnd (length l) t a b
  verdicts t l r a b p (inl (v, e, _, enough)) (inl (v', e', _, enough')) =
      inl (v, v', e, e', one_majority t (digest v) (digest v') l r p enough enough')
  verdicts t l r a b p (inl (v, e, _, enough)) (inr (e', few)) =
      absurd (omega (arith, few (digest v), ballots-Perm (digest v) p))
  verdicts t l r a b p (inr (e, few)) (inl (v', e', _, enough')) =
      absurd (omega (arith, few (digest v'), ballots-Perm (digest v') p))
  verdicts t l r a b p (inr (e, few)) (inr (e', few')) = inr (e, e')

  pub broadcast_loop-Verdict :
      (t : ℕ) (waves : List (List (Raises Json)))
      → 1 < t
      → Verdict net t (recorded (joined waves)) (broadcast_loop net t waves at_start)
  broadcast_loop-Verdict t waves big =
      subst (λ rs. Verdict net t rs (broadcast_loop net t waves at_start))
        (all_recorded-joined waves) (threshold_exact net t waves big)

  -- With a threshold of two or more, the order in which the tasks end, and the sets in which they
  -- are seen to end, do not decide whether a broadcast returns or raises `RpcEmptyResponse`; and
  -- with a threshold of more than half of the tasks they do not decide the hash of what it returns.
  pub threshold_any_order :
      (t : ℕ) (waves waves' : List (List (Raises Json)))
      → 1 < t
      → Perm (joined waves) (joined waves')
      → SameEnd
          (length (joined waves))
          t
          (broadcast_loop net t waves at_start)
          (broadcast_loop net t waves' at_start)
  threshold_any_order t waves waves' big p =
      verdicts t (joined waves) (joined waves') _ _ p (broadcast_loop-Verdict t waves big)
        (broadcast_loop-Verdict t waves' big)

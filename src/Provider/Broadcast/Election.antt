-- ===== src/Provider/Broadcast/Election.antt =====
-- The threshold of `call_rpc_request` of src/py_near/providers.py as an election among the tasks,
-- whatever their order: the tasks are a list up to permutation.
use mathlib.Core.Logic.{∥∥₁_elim}
use mathlib.Core.List.{Perm, Permᴰ}
use mathlib.Core.Quot
use mathlib.Core.Quot.{Quot}
use mathlib.Core.List.Perm
use native.Mathlib.Nat.{ℕ_set}
use py_near.Base.{
  ℕ, suc, ◌*◌, ◌≤◌, ◌<◌, true, Option, none, some, List, [], ◌∷◌, length, leb, ltb, ok, err, ◌≡◌,
  refl, arith, ◌⊎◌, inl, inr, ap, sym, ◌∙◌, Option-cases, ◌≢◌, Bool-cases, if◌then◌else◌,
}
use py_near.Json.{Json}
use py_near.Errors.Exception.{Raises}
use py_near.Provider.Network.{Network}
use py_near.Provider.Broadcast.{broadcast_loop, at_start}
use py_near.Provider.Broadcast.Agreement.{recorded, votes}
use py_near.Provider.Broadcast.Threshold.{joined, Verdict}
use py_near.Provider.Broadcast.Order.{ballots-Perm, one_majority, broadcast_loop-Verdict}

length-Permᴰ : {l r : List (Raises Json)} → Permᴰ l r → length l ≡ length r
length-Permᴰ Permᴰ.nil = refl
length-Permᴰ (Permᴰ.cons e p) = ap suc (length-Permᴰ p)
length-Permᴰ (Permᴰ.swap e e') = refl
length-Permᴰ (Permᴰ.trans p q) = length-Permᴰ p ∙ length-Permᴰ q

length-Perm : {l r : List (Raises Json)} → Perm l r → length l ≡ length r
length-Perm p = ∥∥₁_elim p (ℕ_set _ _) length-Permᴰ

-- The tasks of a request, with how they ended, in no order.
abbrev pub Tasks : Type 0
Tasks = Quot (Perm {A = Raises Json})

module _ (net : Network) where
  open net use {digest}

  -- The first response of which a hash has at least `t` of the responses.
  first_elected : ℕ → List Json → List Json → Option ℕ
  first_elected t all [] = none
  first_elected t all (v ∷ rest) =
      let later = first_elected t all rest in
      if leb t (votes net (digest v) all) then some (digest v) else later

  -- With a hash that `t` of the responses have, and only if `t` is more than half of the tasks.
  elected_of : ℕ → List (Raises Json) → Option ℕ
  elected_of t l =
      if ltb (length l) (2 * t) then first_elected t (recorded l) (recorded l) else none

  first_elected-some :
      (t : ℕ) (all rs : List Json) (h : ℕ) → first_elected t all rs ≡ some h → t ≤ votes net h all
  unfolding first_elected
  first_elected-some t all [] h e = cc
  first_elected-some t all (v ∷ rs) h e = ground (arith, first_elected-some t all rs h)

  first_elected-none :
      (t h : ℕ) (all rs : List Json)
      → first_elected t all rs ≡ none
      → 0 < votes net h rs
      → votes net h all < t
  unfolding first_elected
  first_elected-none t h all [] e pos = absurd (omega arith)
  first_elected-none t h all (v ∷ rs) e pos = ground (arith, first_elected-none t h all rs)

  -- Of two rows of responses with the same votes, both elect or neither does.
  both_elect :
      (t h : ℕ) (l r : List (Raises Json))
      → 0 < t
      → Perm l r
      → first_elected t (recorded l) (recorded l) ≡ some h
      → first_elected t (recorded r) (recorded r) ≢ none
  both_elect t h l r pos p e e' =
      let enough = first_elected-some t (recorded l) (recorded l) h e in
      absurd (
        omega (
          arith,
          ballots-Perm net h p,
          first_elected-none t h (recorded r) (recorded r) e' (omega (arith, ballots-Perm net h p)),
        ))

  same_election :
      (t : ℕ) (l r : List (Raises Json))
      → length l < 2 * t
      → Perm l r
      → first_elected t (recorded l) (recorded l) ≡ first_elected t (recorded r) (recorded r)
  same_election t l r few p =
      by_cases (Option-cases (first_elected t (recorded l) (recorded l)))
        (Option-cases (first_elected t (recorded r) (recorded r)))
    where
      a : Option ℕ
      a = first_elected t (recorded l) (recorded l)

      b : Option ℕ
      b = first_elected t (recorded r) (recorded r)

      by_cases :
          (a ≡ none) ⊎ ((h : ℕ) × (a ≡ some h)) → (b ≡ none) ⊎ ((h : ℕ) × (b ≡ some h)) → a ≡ b
      by_cases (inl e) (inl e') = e ∙ sym e'
      by_cases (inl e) (inr (h', e')) =
          absurd (both_elect t h' r l (omega arith) (Perm.symm p) e' e)
      by_cases (inr (h, e)) (inl e') = absurd (both_elect t h l r (omega arith) p e e')
      by_cases (inr (h, e)) (inr (h', e')) =
          e
          ∙ ap some (
              one_majority net t h h' l r p (first_elected-some t (recorded l) (recorded l) h e)
                (first_elected-some t (recorded r) (recorded r) h' e') few)
          ∙ sym e'

  elected_of-Perm : (t : ℕ) (l r : List (Raises Json)) → Perm l r → elected_of t l ≡ elected_of t r
  unfolding elected_of
  elected_of-Perm t l r p = elim (Bool-cases (ltb (length l) (2 * t))) [
    | inl few ↦ rw (few, ← length-Perm p) (rw few (same_election t l r (ground arith) p))
    | inr many ↦ rw (many, ← length-Perm p) (rw many refl)
  ]

  hashes_set : IsSet (Option ℕ)
  hashes_set = hlevel

  -- The hash that the tasks elect, whatever their order.
  pub elected : ℕ → Tasks → Option ℕ
  elected t = Quot.lift hashes_set (elected_of t) (elected_of-Perm t)

  -- The hash of what is returned.
  abbrev pub outcome : Raises Json → Option ℕ
  outcome (ok v) = some (digest v)
  outcome (err e) = none

  Verdict-elected :
      (t : ℕ) (l : List (Raises Json)) (r : Raises Json)
      → length l < 2 * t
      → Verdict net t (recorded l) r
      → outcome r ≡ first_elected t (recorded l) (recorded l)
  Verdict-elected t l r few verdict =
      by_cases verdict (Option-cases (first_elected t (recorded l) (recorded l)))
    where
      a : Option ℕ
      a = first_elected t (recorded l) (recorded l)

      by_cases :
          Verdict net t (recorded l) r → (a ≡ none) ⊎ ((h : ℕ) × (a ≡ some h)) → outcome r ≡ a
      by_cases (inl (v, e, m, enough)) (inl none_elected) = absurd (
          omega (
            arith,
            first_elected-none t (digest v) (recorded l) (recorded l) none_elected
                (omega (arith, enough)),
          ))
      by_cases (inl (v, e, m, enough)) (inr (h, one_elected)) =
          ap outcome e
          ∙ ap some (
              one_majority net t (digest v) h l l Perm.rfl enough
                (first_elected-some t (recorded l) (recorded l) h one_elected) few)
          ∙ sym one_elected
      by_cases (inr (e, none_enough)) (inl none_elected) = ap outcome e ∙ sym none_elected
      by_cases (inr (e, none_enough)) (inr (h, one_elected)) = absurd (
          omega
            (arith, none_enough h, first_elected-some t (recorded l) (recorded l) h one_elected))

  elected_of-few :
      (t : ℕ) (l : List (Raises Json))
      → length l < 2 * t
      → elected_of t l ≡ first_elected t (recorded l) (recorded l)
  unfolding elected_of
  elected_of-few t l few = let f : ltb (length l) (2 * t) ≡ true = ground arith in rw f refl

  -- With a threshold of two or more and of more than half of the tasks, the loop implements the
  -- election among the tasks in no order: a response is returned with the hash that is elected, and
  -- an exception is raised when none is.
  pub broadcast_loop-elected :
      (t : ℕ) (waves : List (List (Raises Json)))
      → 1 < t
      → length (joined waves) < 2 * t
      → outcome (broadcast_loop net t waves at_start) ≡ elected t (Quot.mk (joined waves))
  unfolding elected
  broadcast_loop-elected t waves big few =
      Verdict-elected t (joined waves) (broadcast_loop net t waves at_start) few
        (broadcast_loop-Verdict net t waves big)
      ∙ sym (elected_of-few t (joined waves) few)

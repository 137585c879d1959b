-- ===== src/Provider/Broadcast/Agreement.antt =====
-- One round of the broadcast loop of src/py_near/providers.py: what a set of ended tasks adds, and
-- when the responses agree.
use py_near.Base.{
  list_laws, Memᴰ, ℕ, zero, suc, ◌+◌, ◌≤◌, ◌<◌, Bool, true, false, none, some, List, [], ◌∷◌, ◌++◌,
  map, ◌==◌, leb, length, count, ok, err, ◌≡◌, refl, arith, ◌⊎◌, inl, inr, Bool-cases, count-append,
  sym, ap, if◌then◌else◌, ◌∙◌, subst, leb→le, le→leb,
}
use mathlib.Core.List.{append_assoc, append-nil}
use py_near.Json.{Json}
use py_near.Python.{contains}
use py_near.Errors.Exception.{Raises, Exception}
use py_near.Provider.Network.{Network}
use py_near.Provider.Majority.{most_frequent_by_hash}
use py_near.Provider.Majority.Maximal.{most_frequent-IsMaximal}
use py_near.Provider.Broadcast.{Gathered, returns, goes_on, wave, with_hash, agreed}

abbrev pub kept : Json → List Json → List Json
kept v rest = elim (contains "error" v) [ err e ↦ rest | ok _ ↦ v ∷ rest ]

-- The responses that the loop keeps: every answer in which `"error" in result` does not raise.
abbrev pub recorded : List (Raises Json) → List Json
recorded [] = []
recorded (err e ∷ done) = recorded done
recorded (ok v ∷ done) = kept v (recorded done)

module _ (t : ℕ) (v : Json) (done : List (Raises Json)) (g : Gathered) where
  abbrev pub with_response : Gathered
  with_response = record { result = v; responses = g.responses ++ (v ∷ []) }

  pub wave_raises :
      {e : Exception}
      → contains "error" v ≡ err e
      → wave t (ok v ∷ done) g ≡ wave t done (record g { result = v })
  unfolding wave
  wave_raises h = rw (h, wave)

  pub wave_error : contains "error" v ≡ ok true → wave t (ok v ∷ done) g ≡ wave t done with_response
  unfolding wave
  wave_error h = rw (h, wave)

  pub wave_returns : contains "error" v ≡ ok false → t ≤ 1 → wave t (ok v ∷ done) g ≡ returns v
  unfolding wave
  wave_returns h l = rw (h, wave) (rw (le→leb t 1 l))

  pub wave_counts :
      contains "error" v ≡ ok false → 1 < t → wave t (ok v ∷ done) g ≡ wave t done with_response
  unfolding wave
  wave_counts h l = rw (h, wave) (let f : leb t 1 ≡ false = ground arith in rw f)

pub wave_skips :
    (t : ℕ) (e : Exception) (done : List (Raises Json)) (g : Gathered)
    → wave t (err e ∷ done) g ≡ wave t done g
unfolding wave
wave_skips t e done g = refl

pub data Answer (v : Json) : Type 0 where
  raises : (e : Exception) → contains "error" v ≡ err e → Answer v
  bad : contains "error" v ≡ ok true → Answer v
  good : contains "error" v ≡ ok false → Answer v

pub answer : (v : Json) → Answer v
answer v = from (contains "error" v) refl
  where
    from : (r : Raises Bool) → contains "error" v ≡ r → Answer v
    from (err e) h = raises e h
    from (ok true) h = bad h
    from (ok false) h = good h

-- With a threshold above one a round goes on, with the responses of its tasks behind the others.
pub wave-responses :
    (t : ℕ) (done : List (Raises Json)) (g : Gathered)
    → 1 < t
    → (g' : Gathered) × (wave t done g ≡ goes_on g') × (g'.responses ≡ g.responses ++ recorded done)
wave-responses t [] g h = (g, unfold wave in refl, sym (append-nil g.responses))
wave-responses t (err e ∷ done) g h =
    let (g', p, q) = wave-responses t done g h in (g', wave_skips t e done g ∙ p, q)
wave-responses t (ok v ∷ done) g h = elim (answer v) [
  | raises e c ↦
      let (g', p, q) = wave-responses t done (record g { result = v }) h in
      (g', wave_raises t v done g c ∙ p, rw (c, kept) q)
  | bad c ↦
      let (g', p, q) = wave-responses t done (with_response t v done g) h in
      (
        g',
        wave_error t v done g c ∙ p,
        rw (c, kept) (q ∙ append_assoc g.responses (v ∷ []) (recorded done)),
      )
  | good c ↦
      let (g', p, q) = wave-responses t done (with_response t v done g) h in
      (
        g',
        wave_counts t v done g c h ∙ p,
        rw (c, kept) (q ∙ append_assoc g.responses (v ∷ []) (recorded done)),
      )
]

module _ (net : Network) where
  open net use {digest}

  -- How many responses have a hash.
  abbrev pub votes : ℕ → List Json → ℕ
  votes h rs = count h (map digest rs)

  pub votes-append : (h : ℕ) (xs ys : List Json) → votes h (xs ++ ys) ≡ votes h xs + votes h ys
  votes-append h xs ys = simp list_laws (count-append h (map digest xs) (map digest ys))

  with_hash-length : (h : ℕ) (rs : List Json) → length (with_hash net h rs) ≡ votes h rs
  unfolding with_hash
  with_hash-length h [] = refl
  with_hash-length h (x ∷ xs) = ground (arith, with_hash-length h xs)

  with_hash-head :
      (h : ℕ) (rs : List Json) (y : Json) (ys : List Json)
      → with_hash net h rs ≡ y ∷ ys
      → digest y ≡ h
  unfolding with_hash
  with_hash-head h [] y ys e = cc
  with_hash-head h (x ∷ xs) y ys e = ground (arith, with_hash-head h xs y ys)

  with_hash-Mem :
      (h : ℕ) (rs : List Json) (y : Json) (ys : List Json) → with_hash net h rs ≡ y ∷ ys → Memᴰ y rs
  unfolding with_hash
  with_hash-Mem h [] y ys e = cc
  with_hash-Mem h (x ∷ xs) y ys e = elim (Bool-cases (digest x == h)) [
    | inl t ↦
        Memᴰ.head
          (let e' : x ∷ with_hash net h xs ≡ y ∷ ys = rw t at e in let q : x ≡ y = cc in sym q)
    | inr f ↦
        Memᴰ.tail (with_hash-Mem h xs y ys (let e' : with_hash net h xs ≡ y ∷ ys = rw f at e in e'))
  ]

  agreed-picked :
      (t m : ℕ) (x : Json) (xs : List Json) (y : Json) (ys : List Json)
      → most_frequent_by_hash (map digest (x ∷ xs)) ≡ ok m
      → with_hash net m (x ∷ xs) ≡ y ∷ ys
      → agreed net (suc t) (x ∷ xs) ≡ ok (if leb (suc t) (length (y ∷ ys)) then some y else none)
  unfolding agreed
  agreed-picked t m x xs y ys chosen e = rw (chosen, agreed) (rw e)

  with_hash-cons :
      (m : ℕ) (rs : List Json)
      → 0 < votes m rs
      → (y : Json) × (ys : List Json) × (with_hash net m rs ≡ y ∷ ys)
  with_hash-cons m rs pos = from (with_hash net m rs) refl
    where
      from :
          (l : List Json)
          → with_hash net m rs ≡ l
          → (y : Json) × (ys : List Json) × (with_hash net m rs ≡ y ∷ ys)
      from [] e = absurd (omega (arith, with_hash-length m rs, ap length e))
      from (y ∷ ys) e = (y, ys, e)

  -- Responses either agree on one that has at least `t` votes, or no hash has so many.
  pub agreed_cases :
      (t : ℕ) (rs : List Json)
      → 0 < t
      → ((v : Json) × (agreed net t rs ≡ ok (some v)) × Memᴰ v rs × (t ≤ votes (digest v) rs))
        ⊎ ((agreed net t rs ≡ ok none) × ((h : ℕ) → votes h rs < t))
  agreed_cases t [] pos = inr (unfold agreed in refl, λ h. pos)
  agreed_cases zero (x ∷ xs) pos = elim pos [ ]
  agreed_cases (suc t) (x ∷ xs) pos =
      let (m, chosen, occurs, most) = most_frequent-IsMaximal (digest x) (map digest xs) in
      let (y, ys, e) = with_hash-cons m (x ∷ xs) occurs in
      let n : length (y ∷ ys) ≡ votes m (x ∷ xs) =
        sym (ap length e) ∙ with_hash-length m (x ∷ xs) in
      let hy = with_hash-head m (x ∷ xs) y ys e in
      elim (Bool-cases (leb (suc t) (length (y ∷ ys)))) [
        | inl enough ↦ inl (
          y,
          agreed-picked t m x xs y ys chosen e ∙ rw enough,
          with_hash-Mem m (x ∷ xs) y ys e,
          subst (λ h. suc t ≤ votes h (x ∷ xs)) (sym hy)
              (subst (λ k. suc t ≤ k) n (leb→le _ _ enough)),
        )
        | inr few ↦ inr (
          agreed-picked t m x xs y ys chosen e ∙ rw few,
          λ h. below h m (x ∷ xs) (suc t) (length (y ∷ ys)) few n (most h),
        )
      ]
    where
      below :
          (h m : ℕ) (rs : List Json) (k n : ℕ)
          → leb k n ≡ false
          → n ≡ votes m rs
          → votes h rs ≤ votes m rs
          → votes h rs < k
      below h m rs k n few e le = let lt : n < k = ground arith in omega arith

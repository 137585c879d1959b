-- ===== src/Provider/Majority/Maximal.antt =====
-- `most_frequent_by_hash` of src/py_near/providers.py against plain counting.
use py_near.Base.{
  ℕ, ◌+◌, ◌≤◌, ◌<◌, List, [], ◌∷◌, ◌==◌, ltb, count, ok, err, ◌≡◌, refl, arith, Memᴰ, ◌⊎◌, inl, inr,
  Bool-cases, if◌then◌else◌,
}
use py_near.Errors.Exception.{Raises, index_error}
use py_near.Provider.Majority.{Counter, add_one, counter_from, best, most_frequent_by_hash}

-- The count that a counter holds for a number.
abbrev weight : ℕ → Counter → ℕ
weight x [] = 0
weight x ((y, n) ∷ c) = if y == x then n else weight x c

-- Each number has one entry, with a positive count.
abbrev IsCounter : Counter → Type 0
IsCounter [] = Unit
IsCounter ((y, n) ∷ c) = (weight y c ≡ 0) × (0 < n) × IsCounter c

weight-add_one :
    (x y : ℕ) (c : Counter) → weight x (add_one y c) ≡ (if y == x then 1 else 0) + weight x c
unfolding add_one
weight-add_one x y [] = ground arith
weight-add_one x y ((z, n) ∷ c) = ground (arith, weight-add_one x y c)

add_one-IsCounter : (y : ℕ) (c : Counter) → IsCounter c → IsCounter (add_one y c)
unfolding add_one
add_one-IsCounter y [] h = ground arith
add_one-IsCounter y ((z, n) ∷ c) h = ground (arith, add_one-IsCounter y c h.2, weight-add_one z y c)

weight-counter_from :
    (x : ℕ) (c : Counter) (xs : List ℕ) → weight x (counter_from c xs) ≡ count x xs + weight x c
unfolding counter_from
weight-counter_from x c [] = omega arith
weight-counter_from x c (y ∷ xs) =
    omega (arith, weight-counter_from x (add_one y c) xs, weight-add_one x y c)

counter_from-IsCounter : (c : Counter) (xs : List ℕ) → IsCounter c → IsCounter (counter_from c xs)
unfolding counter_from
counter_from-IsCounter c [] h = h
counter_from-IsCounter c (y ∷ xs) h =
    counter_from-IsCounter (add_one y c) xs (add_one-IsCounter y c h)

best-choice : (b : ℕ × ℕ) (c : Counter) → (best b c ≡ b) ⊎ Memᴰ (best b c) c
unfolding best
best-choice b [] = inl refl
best-choice b (e ∷ c) = elim (Bool-cases (ltb b.1 e.1)) [
  | inl t ↦ rw t (elim (best-choice e c) [ inl p ↦ inr (Memᴰ.head p) | inr m ↦ inr (Memᴰ.tail m) ])
  | inr f ↦ rw f (elim (best-choice b c) [ inl p ↦ inl p | inr m ↦ inr (Memᴰ.tail m) ])
]

best-ge : (b : ℕ × ℕ) (c : Counter) → b.1 ≤ (best b c).1
unfolding best
best-ge b [] = omega arith
best-ge b (e ∷ c) = ground (arith, best-ge e c, best-ge b c)

weight-le-best : (x : ℕ) (b : ℕ × ℕ) (c : Counter) → weight x c ≤ (best b c).1
unfolding best
weight-le-best x b [] = omega arith
weight-le-best x b (e ∷ c) =
    ground (arith, weight-le-best x e c, weight-le-best x b c, best-ge e c, best-ge b c)

weight_of_Mem :
    (e : ℕ × ℕ) (c : Counter) → IsCounter c → Memᴰ e c → (weight e.0 c ≡ e.1) × (0 < e.1)
weight_of_Mem e [] h i = elim i [ ]
weight_of_Mem e (d ∷ c) h (Memᴰ.head p) = rw p (ground arith)
weight_of_Mem e (d ∷ c) h (Memᴰ.tail i) = ground (arith, weight_of_Mem e c h.2 i)

-- The entry that `most_common(1)` puts first holds its number's count, and no count is greater.
best-weight :
    (e : ℕ × ℕ) (c : Counter)
    → IsCounter (e ∷ c)
    → (weight (best e c).0 (e ∷ c) ≡ (best e c).1) × (0 < (best e c).1)
best-weight e c h = elim (best-choice e c) [
  | inl p ↦ weight_of_Mem (best e c) (e ∷ c) h (Memᴰ.head p)
  | inr m ↦ weight_of_Mem (best e c) (e ∷ c) h (Memᴰ.tail m)
]

abbrev first_of_counter : Counter → Raises ℕ
first_of_counter c = elim c [ [] ↦ err index_error | e ∷ rest ↦ ok (best e rest).0 ]

first_of_counter-IsMaximal :
    (array : List ℕ) (y : ℕ) (c : Counter)
    → IsCounter c
    → ((x : ℕ) → weight x c ≡ count x array)
    → 0 < count y array
    → (m : ℕ) × (first_of_counter c ≡ ok m)
      × (0 < count m array)
      × ((x : ℕ) → count x array ≤ count m array)
first_of_counter-IsMaximal array y [] h w pos = absurd (omega (arith, w y))
first_of_counter-IsMaximal array y (e ∷ c) h w pos =
    let m = (best e c).0 in
    let held = best-weight e c h in
    (
      m,
      refl,
      rw (← w m, held.0) held.1,
      λ x. rw (← w m, ← w x, held.0) (ground (arith, weight-le-best x e c, best-ge e c)),
    )

-- In an array that is not empty an element is chosen that occurs, and no number occurs more often.
pub most_frequent-IsMaximal :
    (y : ℕ) (ys : List ℕ)
    → (m : ℕ) × (most_frequent_by_hash (y ∷ ys) ≡ ok m)
      × (0 < count m (y ∷ ys))
      × ((x : ℕ) → count x (y ∷ ys) ≤ count m (y ∷ ys))
unfolding most_frequent_by_hash
most_frequent-IsMaximal y ys =
    first_of_counter-IsMaximal (y ∷ ys) y (counter_from [] (y ∷ ys))
      (counter_from-IsCounter [] (y ∷ ys) tt)
      (λ x. omega (arith, weight-counter_from x [] (y ∷ ys))) (ground arith)

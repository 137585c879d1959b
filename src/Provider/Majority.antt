-- ===== src/Provider/Majority.antt =====
-- `most_frequent_by_hash` of src/py_near/providers.py, with `collections.Counter`.
pub mod Maximal
use py_near.Base.{ℕ, ◌+◌, List, [], ◌∷◌, ◌==◌, ltb, ok, err, if◌then◌else◌}
use py_near.Errors.Exception.{Raises, index_error}

-- Elements with their counts, in the order in which they were first met.
abbrev pub Counter : Type 0
Counter = List (ℕ × ℕ)

unfoldable pub add_one : ℕ → Counter → Counter
add_one x [] = (x, 1) ∷ []
add_one x ((y, n) ∷ c) = if y == x then (y, n + 1) ∷ c else (y, n) ∷ add_one x c

unfoldable pub counter_from : Counter → List ℕ → Counter
unfolding add_one
counter_from c [] = c
counter_from c (x ∷ xs) = counter_from (add_one x c) xs

-- The first of the pairs with the greatest count.
unfoldable pub best : ℕ × ℕ → Counter → ℕ × ℕ
best b [] = b
best b (e ∷ c) = best (if ltb b.1 e.1 then e else b) c

-- `Counter(array).most_common(1)[0][0]`
unfoldable pub most_frequent_by_hash : List ℕ → Raises ℕ
unfolding counter_from best
most_frequent_by_hash array = elim (counter_from [] array) [
  | [] ↦ err index_error
  | e ∷ c ↦ ok (best e c).0
]

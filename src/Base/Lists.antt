-- ===== src/Base/Lists.antt =====
-- Lists measured by native numbers, and counting.
use Prim.Native.Nat.{ℕ, suc, ◌+◌, ◌≤◌}
use mathlib.Core.Path.{◌≡◌, refl, ap}
use mathlib.Core.List.{List, [], ◌∷◌, ◌++◌, map, Memᴰ, append_assoc, append-nil, map-append}
use mathlib.Core.Bool.{Bool, false, ◌||◌}
use native.Mathlib.Omega.{arith}
use py_near.Base.Tests.{◌==◌, if◌then◌else◌}

module _ {ℓ} {A : Type ℓ} where
  abbrev pub length : List A → ℕ
  length [] = 0
  length (x ∷ xs) = suc (length xs)

  abbrev pub All {κ} : (A → Type κ) → List A → Type κ
  All P [] = Unit
  All P (x ∷ xs) = P x × All P xs

  pub length-append : (xs ys : List A) → length (xs ++ ys) ≡ length xs + length ys
  length-append [] ys = omega arith
  length-append (x ∷ xs) ys = omega (arith, length-append xs ys)

pub length-map {ℓ κ} :
    {A : Type ℓ} {B : Type κ} (f : A → B) (xs : List A) → length (map f xs) ≡ length xs
length-map f [] = refl
length-map f (x ∷ xs) = ap suc (length-map f xs)

-- How often a number is in a list.
abbrev pub count : ℕ → List ℕ → ℕ
count n [] = 0
count n (m ∷ rest) = (if m == n then 1 else 0) + count n rest

pub count-append : (n : ℕ) (l r : List ℕ) → count n (l ++ r) ≡ count n l + count n r
count-append n [] r = omega arith
count-append n (m ∷ l) r = ground (arith, count-append n l r)

pub count-le-length : (a : ℕ) (xs : List ℕ) → count a xs ≤ length xs
count-le-length a [] = omega arith
count-le-length a (x ∷ xs) = ground (arith, count-le-length a xs)

module _ {ℓ} {A : Type ℓ} where
  abbrev pub any : (A → Bool) → List A → Bool
  any p [] = false
  any p (x ∷ xs) = p x || any p xs

-- Appending to the right, with nothing left to append; and what a list measures.
pub ruleset list_laws = (append_assoc, append-nil, map-append)

pub ruleset measures = (arith, length-append, length-map)

module _ {ℓ κ} {A : Type ℓ} (P : A → Type κ) where
  pub All-append : (xs ys : List A) → All P xs → All P ys → All P (xs ++ ys)
  All-append [] ys h k = k
  All-append (x ∷ xs) ys (p, h) k = (p, All-append xs ys h k)

-- All elements of a list are elements of one that holds them.
pub All-self {ℓ} :
    {A : Type ℓ} (xs ys : List A) → ((x : A) → Memᴰ x xs → Memᴰ x ys) → All (λ x. Memᴰ x ys) xs
All-self [] ys h = tt
All-self (x ∷ xs) ys h = (h x (Memᴰ.head refl), All-self xs ys (λ z m. h z (Memᴰ.tail m)))

pub All-map {ℓ κ μ} :
    {A : Type ℓ} {P : A → Type κ} {Q : A → Type μ}
    → ((x : A) → P x → Q x)
    → (xs : List A) → All P xs
    → All Q xs
All-map f [] h = tt
All-map f (x ∷ xs) (p, h) = (f x p, All-map f xs h)

module _ {ℓ} {A : Type ℓ} where
  pub Mem-append_left : {v : A} (xs ys : List A) → Memᴰ v xs → Memᴰ v (xs ++ ys)
  Mem-append_left [] ys m = elim m [ ]
  Mem-append_left (x ∷ xs) ys (Memᴰ.head e) = Memᴰ.head e
  Mem-append_left (x ∷ xs) ys (Memᴰ.tail m) = Memᴰ.tail (Mem-append_left xs ys m)

  pub Mem-append_right : {v : A} (xs ys : List A) → Memᴰ v ys → Memᴰ v (xs ++ ys)
  Mem-append_right [] ys m = m
  Mem-append_right (x ∷ xs) ys m = Memᴰ.tail (Mem-append_right xs ys m)

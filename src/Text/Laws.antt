-- ===== src/Text/Laws.antt =====
-- How `replace` and `split` act on a text in which the separator stands at known places.
pub mod Once
use text.Mathlib.TextLemmas.{nil-append, cons-append, append_assoc}
use Prim.Native.Nat.{pred}
use Prim.Native.Char.{Char}
use py_near.Base.{
  ℕ, zero, suc, String, ◌<>◌, true, false, List, [], ◌∷◌, ◌≡◌, refl, ap, subst, arith, Bool-cases,
  inl, inr, ◌∙◌,
}
use py_near.Text.{
  begins, has, size, remove_from, remove_all, push_char, split_from, split, same_char,
}

pub begins-append : (p s : String) → begins p (p <> s) ≡ true
unfolding begins
begins-append String.[] s = refl
begins-append (String.◌∷◌ c p) s = rw cons-append (ground (arith, begins-append p s))

remove_from-suc :
    (old : String) (skip : ℕ) (c : Char) (s : String)
    → remove_from old (suc skip) (String.◌∷◌ c s) ≡ remove_from old skip s
unfolding remove_from
remove_from-suc old skip c s = refl

remove_from-skip : (old p s : String) → remove_from old (size p) (p <> s) ≡ remove_from old zero s
unfolding size
remove_from-skip old String.[] s = rw nil-append
remove_from-skip old (String.◌∷◌ c p) s =
    rw cons-append (remove_from-suc old (size p) c (p <> s) ∙ remove_from-skip old p s)

pub remove_from-hit :
    (old : String) (c : Char) (s : String)
    → begins old (String.◌∷◌ c s) ≡ true
    → remove_from old zero (String.◌∷◌ c s) ≡ remove_from old (pred (size old)) s
unfolding remove_from
remove_from-hit old c s h = rw (h, remove_from)

pub remove_from-miss :
    (old : String) (c : Char) (s : String)
    → begins old (String.◌∷◌ c s) ≡ false
    → remove_from old zero (String.◌∷◌ c s) ≡ String.◌∷◌ c (remove_from old zero s)
unfolding remove_from
remove_from-miss old c s h = rw (h, remove_from)

pub remove_from-prefix :
    (c : Char) (p s : String)
    → let old = String.◌∷◌ c p in remove_from old zero (old <> s) ≡ remove_from old zero s
unfolding size
remove_from-prefix c p s =
    let old = String.◌∷◌ c p in
    rw cons-append (
      remove_from-hit old c (p <> s) (rw (← cons-append) (begins-append old s))
      ∙ remove_from-skip old p s)

-- An occurrence at the front is removed.
pub remove_all-prefix :
    (c : Char) (p s : String)
    → let old = String.◌∷◌ c p in remove_all old (old <> s) ≡ remove_all old s
unfolding remove_all
remove_all-prefix c p s = remove_from-prefix c p s

-- The character does not occur.
abbrev pub Lacks : Char → String → Type 0
Lacks a String.[] = Unit
Lacks a (String.◌∷◌ c s) = (same_char a c ≡ false) × Lacks a s

pub Lacks-append : (a : Char) (s t : String) → Lacks a s → Lacks a t → Lacks a (s <> t)
Lacks-append a String.[] t h k = rw nil-append k
Lacks-append a (String.◌∷◌ c s) t h k = rw cons-append (h.0, Lacks-append a s t h.1 k)

split_from-suc :
    (sep : String) (skip : ℕ) (c : Char) (s : String)
    → split_from sep (suc skip) (String.◌∷◌ c s) ≡ split_from sep skip s
unfolding split_from
split_from-suc sep skip c s = refl

split_from-skip : (sep p s : String) → split_from sep (size p) (p <> s) ≡ split_from sep zero s
unfolding size
split_from-skip sep String.[] s = rw nil-append
split_from-skip sep (String.◌∷◌ c p) s =
    rw cons-append (split_from-suc sep (size p) c (p <> s) ∙ split_from-skip sep p s)

split_from-hit :
    (sep : String) (c : Char) (s : String)
    → begins sep (String.◌∷◌ c s) ≡ true
    → split_from sep zero (String.◌∷◌ c s) ≡ String.[] ∷ split_from sep (pred (size sep)) s
unfolding split_from
split_from-hit sep c s h = rw (h, split_from)

begins-miss :
    (a : Char) (p : String) (c : Char) (s : String)
    → same_char a c ≡ false
    → begins (String.◌∷◌ a p) (String.◌∷◌ c s) ≡ false
unfolding begins
begins-miss a p c s h = rw h

split_from-miss :
    (a : Char) (p : String) (c : Char) (s : String)
    → same_char a c ≡ false
    → split_from (String.◌∷◌ a p) zero (String.◌∷◌ c s)
      ≡ push_char c (split_from (String.◌∷◌ a p) zero s)
unfolding split_from
split_from-miss a p c s h = rw (begins-miss a p c s h, split_from)

-- The text before a separator that it does not meet is the first part.
split_from-first :
    (a : Char) (p w rest : String)
    → Lacks a w
    → let sep = String.◌∷◌ a p in
      split_from sep zero (w <> (sep <> rest)) ≡ w ∷ split_from sep zero rest
unfolding size
split_from-first a p String.[] rest h =
    let sep = String.◌∷◌ a p in
    rw (nil-append, cons-append)
      (split_from-hit sep a (p <> rest) (rw (← cons-append) (begins-append sep rest))
        ∙ ap (λ ws. String.[] ∷ ws) (split_from-skip sep p rest))
split_from-first a p (String.◌∷◌ c w) rest h =
    rw cons-append (split_from-miss a p c _ h.0 ∙ rw (split_from-first a p w rest h.1))

pub split-first :
    (a : Char) (p w rest : String)
    → Lacks a w
    → let sep = String.◌∷◌ a p in split sep (w <> (sep <> rest)) ≡ w ∷ split sep rest
unfolding split
split-first a p w rest h = split_from-first a p w rest h

split_from-cons :
    (sep : String) (skip : ℕ) (s : String)
    → (r : String) × (ws : List String) × (split_from sep skip s ≡ r ∷ ws)
unfolding split_from
split_from-cons sep zero String.[] = (String.[], [], refl)
split_from-cons sep (suc skip) String.[] = (String.[], [], refl)
split_from-cons sep (suc skip) (String.◌∷◌ c s) = split_from-cons sep skip s
split_from-cons sep zero (String.◌∷◌ c s) = elim (Bool-cases (begins sep (String.◌∷◌ c s))) [
  | inl hit ↦ (String.[], split_from sep (pred (size sep)) s, rw (hit, split_from))
  | inr miss ↦
      let (r, ws, e) = split_from-cons sep zero s in
      (String.◌∷◌ c r, ws, rw (miss, split_from) (rw e))
]

-- What stands before the first separator begins the first part, whatever follows it.
split_from-front :
    (a : Char) (p w rest : String)
    → Lacks a w
    → (r : String) × (ws : List String) × (split_from (String.◌∷◌ a p) zero (w <> rest)
        ≡ (w <> r) ∷ ws)
      × (split_from (String.◌∷◌ a p) zero rest ≡ r ∷ ws)
split_from-front a p String.[] rest h =
    let (r, ws, e) = split_from-cons (String.◌∷◌ a p) zero rest in (r, ws, simp nil-append e, e)
split_from-front a p (String.◌∷◌ c w) rest h =
    let (r, ws, e, e') = split_from-front a p w rest h.1 in
    (r, ws, simp cons-append (split_from-miss a p c _ h.0 ∙ rw e), e')

-- The part of a text behind its first separator begins with what comes before a marker and with the
-- marker, if the separator's first character does not occur there.
pub split-second :
    (a b : Char) (p v w rest : String)
    → Lacks a v
    → Lacks a w
    → same_char a b ≡ false
    → let sep = String.◌∷◌ a p in
      (r : String) × (ws : List String) × (split sep (v <> (sep <> (w <> String.◌∷◌ b rest)))
        ≡ v ∷ (w <> String.◌∷◌ b r) ∷ ws)
unfolding split
split-second a b p v w rest hv hw hb =
    let sep = String.◌∷◌ a p in
    let marked = w <> String.◌∷◌ b String.[] in
    let (r, ws, e, _) =
      split_from-front a p marked rest (Lacks-append a w (String.◌∷◌ b String.[]) hw (hb, tt)) in
    let joined : (t : String) → marked <> t ≡ w <> String.◌∷◌ b t =
      λ t. simp (append_assoc, cons-append, nil-append) in
    (
      r,
      ws,
      subst (λ t. split_from sep zero (v <> (sep <> t)) ≡ v ∷ (w <> String.◌∷◌ b r) ∷ ws)
          (joined rest)
          (split_from-first a p v (marked <> rest) hv
            ∙ ap (λ l. v ∷ l) (e ∙ ap (λ t. t ∷ ws) (joined r))),
    )

has_of_begins : (part s : String) → begins part s ≡ true → has part s ≡ true
unfolding has
has_of_begins part String.[] h = h
has_of_begins part (String.◌∷◌ c s) h = rw h

has-cons :
    (part : String) (c : Char) (s : String) → has part s ≡ true → has part (String.◌∷◌ c s) ≡ true
unfolding has
has-cons part c s h = ground arith

pub has-append : (part q r : String) → has part (q <> (part <> r)) ≡ true
has-append part String.[] r = rw nil-append (has_of_begins part (part <> r) (begins-append part r))
has-append part (String.◌∷◌ c q) r = rw cons-append (has-cons part c _ (has-append part q r))

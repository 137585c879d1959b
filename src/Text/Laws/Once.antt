-- ===== src/Text/Laws/Once.antt =====
-- How `replace` removes a text that ends in a marker and stands in another one once.
use text.Mathlib.TextLemmas.{nil-append, cons-append, append_assoc}
use Prim.Native.Char.{Char}
use py_near.Base.{zero, ◌+◌, ◌<◌, String, ◌<>◌, false, ◌≡◌, refl, ap, sym, subst, arith, ◌∙◌}
use py_near.Text.{begins, size, remove_from, remove_all}
use py_near.Text.Laws.{Lacks, Lacks-append, remove_from-miss, remove_from-prefix}

-- A separator does not begin a text in which its marker comes later than in itself.
begins-later :
    (a : Char) (k m rest : String)
    → Lacks a k
    → Lacks a m
    → size k < size m
    → begins (k <> String.◌∷◌ a String.[]) (m <> rest) ≡ false
unfolding size begins
begins-later a k String.[] rest hk hm lt = elim lt [ ]
begins-later a String.[] (String.◌∷◌ c m) rest hk hm lt = simp (nil-append, cons-append) (rw hm.0)
begins-later a (String.◌∷◌ d k) (String.◌∷◌ c m) rest hk hm lt =
    simp cons-append (rw (begins-later a k m rest hk.1 hm.1 (omega arith)) (ground arith))

-- Nor a text in which its marker does not occur.
begins-absent :
    (a : Char) (k s : String) → Lacks a s → begins (k <> String.◌∷◌ a String.[]) s ≡ false
unfolding begins
begins-absent a String.[] String.[] h = rw nil-append
begins-absent a String.[] (String.◌∷◌ c s) h = rw nil-append (rw h.0)
begins-absent a (String.◌∷◌ d k) String.[] h = rw cons-append
begins-absent a (String.◌∷◌ d k) (String.◌∷◌ c s) h =
    rw cons-append (rw (begins-absent a k s h.1) (ground arith))

remove_from-absent :
    (a : Char) (k s : String) → Lacks a s → remove_from (k <> String.◌∷◌ a String.[]) zero s ≡ s
remove_from-absent a k String.[] h = unfold remove_from in refl
remove_from-absent a k (String.◌∷◌ c s) h =
    remove_from-miss _ c s (begins-absent a k (String.◌∷◌ c s) h)
    ∙ ap (String.◌∷◌ c) (remove_from-absent a k s h.1)

size-append : (s t : String) → size (s <> t) ≡ size s + size t
unfolding size
size-append String.[] t = rw nil-append (omega arith)
size-append (String.◌∷◌ c s) t = rw cons-append (omega (arith, size-append s t))

remove_from-prefix_of :
    (old : String) (c : Char) (p s : String)
    → old ≡ String.◌∷◌ c p
    → remove_from old zero (old <> s) ≡ remove_from old zero s
remove_from-prefix_of old c p s e = rw e (remove_from-prefix c p s)

longer : (k q : String) (c : Char) → size k < size (String.◌∷◌ c q <> k)
unfolding size
longer k q c = omega (arith, size-append (String.◌∷◌ c q) k)

begins-before :
    (a : Char) (k : String) (c : Char) (q host : String)
    → Lacks a k
    → Lacks a (String.◌∷◌ c q)
    → let old = k <> String.◌∷◌ a String.[] in
      begins old (String.◌∷◌ c (q <> (old <> host))) ≡ false
begins-before a k c q host hk hq =
    let marker = String.◌∷◌ a String.[] in
    let e : (String.◌∷◌ c q <> k) <> (marker <> host)
        ≡ String.◌∷◌ c (q <> ((k <> marker) <> host)) =
      simp (cons-append, append_assoc) in
    subst (λ t. begins (k <> marker) t ≡ false) e
      (begins-later a k (String.◌∷◌ c q <> k) (marker <> host) hk
        (Lacks-append a (String.◌∷◌ c q) k hq hk) (longer k q c))

remove_from-once :
    (a : Char) (k q host : String)
    → Lacks a k
    → Lacks a q
    → Lacks a host
    → let old = k <> String.◌∷◌ a String.[] in remove_from old zero (q <> (old <> host)) ≡ q <> host
remove_from-once a String.[] String.[] host hk hq hh = simp nil-append (
    remove_from-prefix a String.[] host
    ∙ (rw nil-append at (remove_from-absent a String.[] host hh)))
remove_from-once a (String.◌∷◌ d k) String.[] host hk hq hh = simp nil-append (
    remove_from-prefix_of _ d (k <> String.◌∷◌ a String.[]) host (rw cons-append)
    ∙ remove_from-absent a (String.◌∷◌ d k) host hh)
remove_from-once a k (String.◌∷◌ c q) host hk hq hh = rw (cons-append c q) (
    remove_from-miss _ c _ (begins-before a k c q host hk hq)
    ∙ ap (String.◌∷◌ c) (remove_from-once a k q host hk hq.1 hh)
    ∙ sym (cons-append c q host))

-- The one occurrence of a text that ends in a marker is removed, and the rest is kept.
pub remove_all-once :
    (a : Char) (k q host : String)
    → Lacks a k
    → Lacks a q
    → Lacks a host
    → let old = k <> String.◌∷◌ a String.[] in remove_all old (q <> (old <> host)) ≡ q <> host
unfolding remove_all
remove_all-once a k q host hk hq hh = remove_from-once a k q host hk hq hh

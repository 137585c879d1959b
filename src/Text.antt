-- ===== src/Text.antt =====
-- `str.replace(old, "")` and `str.split(separator)` of Python, for an argument that is not empty.
pub mod Laws
pub mod Decimal
use Prim.Native.Nat.{pred}
use Prim.Native.Char.{Char, code}
use py_near.Base.{ℕ, zero, suc, String, Bool, true, false, ◌&&◌, ◌||◌, List, [], ◌∷◌, ◌==◌}

abbrev pub same_char : Char → Char → Bool
same_char c d = code c == code d

-- `s.startswith(prefix)`
unfoldable pub begins : String → String → Bool
begins String.[] s = true
begins (String.◌∷◌ c p) String.[] = false
begins (String.◌∷◌ c p) (String.◌∷◌ d s) = same_char c d && begins p s

unfoldable pub size : String → ℕ
size String.[] = 0
size (String.◌∷◌ c s) = suc (size s)

-- `skip` characters of an occurrence that was met are still to be passed over.
unfoldable pub remove_from : String → ℕ → String → String
remove_from old skip String.[] = String.[]
remove_from old (suc skip) (String.◌∷◌ c s) = remove_from old skip s
remove_from old zero (String.◌∷◌ c s) = elim (begins old (String.◌∷◌ c s)) [
  | true ↦ remove_from old (pred (size old)) s
  | false ↦ String.◌∷◌ c (remove_from old zero s)
]

-- `s.replace(old, "")`
unfoldable pub remove_all : String → String → String
unfolding remove_from begins size
remove_all old s = remove_from old zero s

abbrev push_char : Char → List String → List String
push_char c [] = String.◌∷◌ c String.[] ∷ []
push_char c (w ∷ ws) = String.◌∷◌ c w ∷ ws

unfoldable pub split_from : String → ℕ → String → List String
split_from separator skip String.[] = String.[] ∷ []
split_from separator (suc skip) (String.◌∷◌ c s) = split_from separator skip s
split_from separator zero (String.◌∷◌ c s) = elim (begins separator (String.◌∷◌ c s)) [
  | true ↦ String.[] ∷ split_from separator (pred (size separator)) s
  | false ↦ push_char c (split_from separator zero s)
]

-- `s.split(separator)`
unfoldable pub split : String → String → List String
unfolding split_from begins size
split separator s = split_from separator zero s

-- `part in s`
unfoldable pub has : String → String → Bool
unfolding begins
has part String.[] = begins part String.[]
has part (String.◌∷◌ c s) = begins part (String.◌∷◌ c s) || has part s

-- ===== src/Tests/Encoding.antt =====
-- An encoding of bytes as text for the tests: each byte is written as so many marks.
use Prim.Native.Char.{code}
use text.Mathlib.TextLemmas.{nil-append, cons-append}
use py_near.Base.{
  ℕ, zero, suc, ◌+◌, String, ◌<>◌, true, false, [], ◌∷◌, ◌≡◌, refl, ap, ◌∙◌, ◌==◌, arith,
}
use py_near.Transactions.{Bytes}

write_byte : ℕ → String → String
write_byte zero rest = "." <> rest
write_byte (suc n) rest = "|" <> write_byte n rest

pub written : Bytes → String
written [] = ""
written (b ∷ bs) = write_byte b (written bs)

pub read_from : ℕ → String → Bytes
read_from acc String.[] = []
read_from acc (String.◌∷◌ c s) = elim (code c == b'.') [
  | true ↦ acc ∷ read_from 0 s
  | false ↦ read_from (acc + 1) s
]

read_from-write_byte :
    (n acc : ℕ) (rest : String) → read_from acc (write_byte n rest) ≡ (acc + n) ∷ read_from 0 rest
unfolding read_from write_byte
read_from-write_byte zero acc rest =
    rw (cons-append, nil-append) (ap (λ (k : ℕ). k ∷ read_from 0 rest) (omega arith))
read_from-write_byte (suc n) acc rest =
    rw (cons-append, nil-append)
      (read_from-write_byte n (acc + 1) rest ∙ ap (λ (k : ℕ). k ∷ read_from 0 rest) (omega arith))

pub read_from-written : (bs : Bytes) → read_from 0 (written bs) ≡ bs
unfolding written read_from
read_from-written [] = refl
read_from-written (b ∷ bs) =
    read_from-write_byte b 0 (written bs)
    ∙ ap (λ (l : Bytes). (0 + b) ∷ l) (read_from-written bs)
    ∙ ap (λ (k : ℕ). k ∷ bs) (omega arith)

-- ===== src/Python/Decimals.antt =====
-- `int` reads back what `str` writes for a number.
use py_near.Base.{
  ℕ, zero, suc, ◌+◌, ◌*◌, ◌-◌, ◌/◌, ◌%◌, ◌≤◌, ◌<◌, String, ◌<>◌, true, false, ◌&&◌, inl, inr, ok,
  err, ◌≡◌, refl, ap, ◌∙◌, ltb, leb, ◌==◌, Bool, Bool-cases, arith, if◌then◌else◌,
}
use Prim.Native.Char.{code}
use text.Mathlib.TextLemmas.{nil-append, cons-append}
use py_near.Json.{str}
use py_near.Errors.Exception.{Raises, value_error}
use py_near.Text.Decimal.{digit, decimal_from, decimal}
use py_near.Python.{digits_from, int}

abbrev Reads : ℕ → String → ℕ → Type 0
Reads acc s n = digits_from acc s ≡ ok n

refused : (n : ℕ) → Path (Raises ℕ) (err value_error) (ok n) → ⊥
refused n h = cc

digits_from-append :
    (acc : ℕ) (s t : String) (v : ℕ) → Reads acc s v → digits_from acc (s <> t) ≡ digits_from v t
unfolding digits_from
digits_from-append acc String.[] t v h =
    rw nil-append (ap (λ r. elim r [ ok a ↦ digits_from a t | err e ↦ err e ]) h)
digits_from-append acc (String.◌∷◌ c s) t v h =
    rw cons-append (elim (Bool-cases (leb b'0' (code c) && leb (code c) b'9')) [
      | inl in_range ↦
          rw in_range (digits_from-append (acc * 10 + (code c - b'0')) s t v (rw in_range at h))
      | inr other ↦ absurd (refused v (rw other at h))
    ])

digits_from-digit : (v d : ℕ) → d < 10 → Reads v (digit d) (v * 10 + d)
unfolding digits_from digit
digits_from-digit v zero h = refl
digits_from-digit v (suc zero) h = refl
digits_from-digit v (suc (suc zero)) h = refl
digits_from-digit v (suc (suc (suc zero))) h = refl
digits_from-digit v (suc (suc (suc (suc zero)))) h = refl
digits_from-digit v (suc (suc (suc (suc (suc zero))))) h = refl
digits_from-digit v (suc (suc (suc (suc (suc (suc zero)))))) h = refl
digits_from-digit v (suc (suc (suc (suc (suc (suc (suc zero))))))) h = refl
digits_from-digit v (suc (suc (suc (suc (suc (suc (suc (suc zero)))))))) h = refl
digits_from-digit v (suc (suc (suc (suc (suc (suc (suc (suc (suc zero))))))))) h = refl
digits_from-digit v (suc (suc (suc (suc (suc (suc (suc (suc (suc (suc d)))))))))) h =
    absurd (omega arith)

none_left : (n : ℕ) → n ≤ 0 → n ≡ 0
none_left n h = omega arith

decimal_from-Reads : (fuel n : ℕ) → n ≤ fuel → Reads 0 (decimal_from fuel n) n
unfolding decimal_from digits_from digit
decimal_from-Reads zero n h = rw (none_left n h) refl
decimal_from-Reads (suc fuel) n h = elim (Bool-cases (ltb n 10)) [
  | inl small ↦ rw small (digits_from-digit 0 n (ground arith) ∙ ap ok (omega arith))
  | inr large ↦ rw large (
      digits_from-append 0 (decimal_from fuel (n / 10)) (digit (n % 10)) (n / 10)
        (decimal_from-Reads fuel (n / 10) (ground arith))
      ∙ digits_from-digit (n / 10) (n % 10) (omega arith)
      ∙ ap ok (omega arith))
]

-- A text with a first character.
Filled : String → Type 0
Filled String.[] = ⊥
Filled (String.◌∷◌ c s) = Unit

Filled-append : (s t : String) → Filled s → Filled (s <> t)
unfolding Filled
Filled-append String.[] t f = elim f [ ]
Filled-append (String.◌∷◌ c s) t h = rw cons-append tt

Filled-if : (b : Bool) (s t : String) → Filled s → Filled t → Filled (if b then s else t)
Filled-if true s t f g = f
Filled-if false s t f g = g

digit-Filled : (n : ℕ) → Filled (digit n)
unfolding digit Filled
digit-Filled n = Filled-if (n == 0) _ _ tt (
    Filled-if (n == 1) _ _ tt (
      Filled-if (n == 2) _ _ tt (
        Filled-if (n == 3) _ _ tt (
          Filled-if (n == 4) _ _ tt (
            Filled-if (n == 5) _ _ tt (
              Filled-if (n == 6) _ _ tt
                (Filled-if (n == 7) _ _ tt (Filled-if (n == 8) _ _ tt tt))))))))

decimal_from-Filled : (fuel n : ℕ) → Filled (decimal_from fuel n)
unfolding decimal_from
decimal_from-Filled zero n = digit-Filled n
decimal_from-Filled (suc fuel) n = elim (Bool-cases (ltb n 10)) [
  | inl small ↦ rw small (digit-Filled n)
  | inr large ↦ rw large (
      Filled-append (decimal_from fuel (n / 10)) (digit (n % 10))
        (decimal_from-Filled fuel (n / 10)))
]

int_of_digits : (s : String) (n : ℕ) → Filled s → Reads 0 s n → int (str s) ≡ ok n
unfolding int Filled
int_of_digits String.[] n f h = elim f [ ]
int_of_digits (String.◌∷◌ c s) n f h = h

-- `int(str(n))` is the number, for every number.
pub int-decimal : (n : ℕ) → int (str (decimal n)) ≡ ok n
unfolding decimal
int-decimal n =
    int_of_digits (decimal_from n n) n (decimal_from-Filled n n)
      (decimal_from-Reads n n (omega arith))

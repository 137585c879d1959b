-- ===== src/Base/Method.antt =====
-- Methods that change a state and may raise: the state comes back after a raise too.
use py_near.Base.Raising.{Result, ok, err}

abbrev pub Method {ℓ κ μ} : Type ℓ → Type κ → Type μ → Type (ℓ ⊔ κ ⊔ μ)
Method S E A = S → Result E A × S

abbrev pub pure {ℓ κ μ} : {S : Type ℓ} {E : Type κ} {A : Type μ} → A → Method S E A
pure a s = (ok a, s)

abbrev pub lift {ℓ κ μ} : {S : Type ℓ} {E : Type κ} {A : Type μ} → Result E A → Method S E A
lift r s = (r, s)

module _ {ℓ κ μ ν} {S : Type ℓ} {E : Type κ} {A : Type μ} {B : Type ν} where
  abbrev pub continued : (A → Method S E B) → Result E A × S → Result E B × S
  continued f (ok a, s) = f a s
  continued f (err e, s) = (err e, s)

  infixl 5 ◌>>=◌ ◌>>◌
  abbrev pub ◌>>=◌ : Method S E A → (A → Method S E B) → Method S E B
  ◌>>=◌ m f s = continued f (m s)

  abbrev pub ◌>>◌ : Method S E A → Method S E B → Method S E B
  m >> k = m >>= λ _. k

module _ {ℓ κ μ} {S : Type ℓ} {E : Type κ} {A : Type μ} where
  abbrev pub handled : (E → Method S E A) → Result E A × S → Result E A × S
  handled handler (ok a, s) = (ok a, s)
  handled handler (err e, s) = handler e s

  -- `try: m` with a handler that sees the exception.
  abbrev pub try_except : Method S E A → (E → Method S E A) → Method S E A
  try_except m handler s = handled handler (m s)

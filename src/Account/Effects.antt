-- ===== src/Account/Effects.antt =====
-- What the methods of an account leave as it is, and what holds when they end without an exception.
use py_near.Base.{ok, err, err-ne-ok, ◌≡◌, refl, ap, ◌∙◌}
use py_near.Base.Method.{Method, continued, handled, try_except, ◌>>=◌}
use py_near.Errors.Exception.{Exception, Raises}
use py_near.Provider.Network.{Network}
use py_near.Account.State.{State}

module _ (net : Network) {X : Type 0} (f : State net → X) where
  pub record Keeps {A : Type 0} (m : Method (State net) Exception A) : Type 0 where
    pub kept : (s : State net) → f (m s).1 ≡ f s

  continued-Keeps :
      {A B : Type 0} (k : A → Method (State net) Exception B) (r : Raises A × State net)
      → ((a : A) → Keeps (k a))
      → f (continued k r).1 ≡ f r.1
  continued-Keeps k (ok a, s) h = (h a).kept s
  continued-Keeps k (err e, s) h = refl

  pub >>=-Keeps :
      {A B : Type 0} (m : Method (State net) Exception A) (k : A → Method (State net) Exception B)
      → Keeps m
      → ((a : A) → Keeps (k a))
      → Keeps (m >>= k)
  >>=-Keeps m k h h' = record { kept = λ s. continued-Keeps k (m s) h' ∙ h.kept s }

  handled-Keeps :
      {A : Type 0} (k : Exception → Method (State net) Exception A) (r : Raises A × State net)
      → ((e : Exception) → Keeps (k e))
      → f (handled k r).1 ≡ f r.1
  handled-Keeps k (ok a, s) h = refl
  handled-Keeps k (err e, s) h = (h e).kept s

  pub try_except-Keeps :
      {A : Type 0} (m : Method (State net) Exception A)
      → (k : Exception → Method (State net) Exception A) → Keeps m
      → ((e : Exception) → Keeps (k e))
      → Keeps (try_except m k)
  try_except-Keeps m k h h' = record { kept = λ s. handled-Keeps k (m s) h' ∙ h.kept s }

module _ (net : Network) (P : State net → Type 0) where
  -- `P` holds wherever the method ends without an exception.
  pub record Ends {A : Type 0} (m : Method (State net) Exception A) : Type 0 where
    pub ends : (s : State net) (a : A) → (m s).0 ≡ ok a → P (m s).1

  continued-Ends :
      {A B : Type 0} (k : A → Method (State net) Exception B) (r : Raises A × State net)
      → ((a : A) → Ends (k a))
      → (b : B) → (continued k r).0 ≡ ok b
      → P (continued k r).1
  continued-Ends k (ok a, s) h b e = (h a).ends s b e
  continued-Ends k (err x, s) h b e = cc

  pub >>=-Ends :
      {A B : Type 0} (m : Method (State net) Exception A) (k : A → Method (State net) Exception B)
      → ((a : A) → Ends (k a))
      → Ends (m >>= k)
  >>=-Ends m k h = record { ends = λ s b e. continued-Ends k (m s) h b e }

module _ (net : Network) {A B : Type 0} where
  -- What two methods one after the other return comes from what the first returned.
  pub continued-returns :
      (k : A → Method (State net) Exception B) (r : Raises A × State net) (s' : State net) (b : B)
      → continued k r ≡ (ok b, s')
      → (a : A) × (r.0 ≡ ok a) × (k a r.1 ≡ (ok b, s'))
  continued-returns k (ok a, s) s' b h = (a, refl, h)
  continued-returns k (err e, s) s' b h = elim (err-ne-ok (ap (λ p. p.0) h)) [ ]

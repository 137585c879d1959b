-- ===== src/Dapps/Keypom/Claims.antt =====
-- What `claim` of src/py_near/dapps/keypom/async_client.py sends and changes.
use py_near.Base.{
  String, true, false, none, some, ◌≡◌, ◌≢◌, refl, ap, ◌∙◌, inl, inr, ◌⊎◌, Bool-cases, str_eq,
  str_eq_iff, if◌then◌else◌,
}
use py_near.Json.{Json, Fields, str, obj, lookup, field, end}
use py_near.Provider.Network.{Network}
use py_near.Provider.Recorded.{recorded, OnlyPosted}
use py_near.Provider.Questions.Opening.{reachable, WasPosted}
use py_near.Transactions.{Primitives}
use py_near.Account.Answers.{set_field}
use py_near.Account.State.{State}
use py_near.Account.Kept.Reads.{ReadsOnly, view_function-ReadsOnly}
use py_near.Account.Asked.Viewed.{viewing, view_function-Viewing}
use py_near.Dapps.Keypom.{KeyPom, claim_args, claim}

str_eq-ne : (s t : String) → s ≢ t → str_eq s t ≡ false
str_eq-ne s t h = elim (Bool-cases (str_eq s t)) [
  | inl same ↦ absurd (h ((str_eq_iff s t).0 same))
  | inr other ↦ other
]

account_id_password : str_eq "account_id" "password" ≡ false
unfolding str_eq
account_id_password = refl

str_eq_refl : (s : String) → str_eq s s ≡ true
str_eq_refl s = (str_eq_iff s s).1 refl

lookup-set_field :
    (key : String) (v : Json) (fs : Fields) → lookup key (set_field key v fs) ≡ some v
unfolding set_field lookup
lookup-set_field key v end = rw (str_eq_refl key) refl
lookup-set_field key v (field k w fs) = elim (Bool-cases (str_eq k key)) [
  | inl same ↦ rw (same, set_field) (rw (same, lookup) refl)
  | inr other ↦ rw (other, set_field) (rw (other, lookup) (lookup-set_field key v fs))
]

lookup-set_field_other :
    (key other : String) (v : Json) (fs : Fields)
    → str_eq key other ≡ false
    → lookup other (set_field key v fs) ≡ lookup other fs
unfolding set_field lookup
lookup-set_field_other key other v end h = rw h refl
lookup-set_field_other key other v (field k w fs) h = elim (Bool-cases (str_eq k key)) [
  | inl same ↦
      let f : str_eq k other ≡ false = rw ((str_eq_iff k key).0 same) h in
      rw (same, set_field) (rw (f, lookup) refl)
  | inr differs ↦
      rw (differs, set_field)
        (ap (λ o. if str_eq k other then some w else o) (lookup-set_field_other key other v fs h))
]

module _ (prim : Primitives) (net : Network) where
  -- Unless the password is the word itself, a claim asks for the view function `claim` with
  -- arguments that have no `password`: they have the password as a key, so that a password
  -- `account_id` takes the place of the account. It posts that question, unless there is no available
  -- address or the first one cannot be read, and nothing else, and it changes neither the account
  -- nor the nonces.
  pub claim_sends_no_password :
      (client : KeyPom) (account_id password : String) (s : State (recorded net))
      → password ≢ "password"
      → let s' = (claim prim (recorded net) client account_id password s).1 in
        ReadsOnly prim net (claim prim net client account_id password)
        × (args : Fields) × let body =
              viewing client.contract_id "claim" (prim.b64encode (prim.dumps (obj args))) none in
            (lookup "password" args ≡ none)
            × (lookup password args ≡ some (str password))
            × OnlyPosted net s.world.1 (λ posted. posted ≡ body) s'.world
            × ((reachable s.account.provider ≡ false) ⊎ WasPosted net body s.world.1 s'.world)
  unfolding claim claim_args lookup
  claim_sends_no_password client account_id password s h =
      let args : Fields = claim_args account_id password in
      let sent = view_function-Viewing prim net client.contract_id "claim" (obj args) none none s in
      (
        view_function-ReadsOnly prim net _ _ _ _ _,
        args,
        (
          lookup-set_field_other password "password" (str password)
                (field "account_id" (str account_id) end) (str_eq-ne password "password" h)
              ∙ rw account_id_password refl,
          lookup-set_field password (str password) (field "account_id" (str account_id) end),
          sent.0,
          sent.1,
        ),
      )

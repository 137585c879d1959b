-- ===== src/Models/Delegate/Refusals.antt =====
-- What `from_bytes` of src/py_near/models.py refuses.
use py_near.Base.{
  Option, none, some, ok, >>=-eq-ok, or_raise, ◌≡◌, refl, ◌⊎◌, inl, inr, Bool-cases, str_eq,
  str_eq_iff, ◌∙◌, ok-injective, err-ne-ok, ap, subst, sym,
}
use py_near.Json.{Json, Fields}
use py_near.Errors.Exception.{Raises, Exception, attribute_error}
use py_near.Models.Keys.{AccessKey, PermissionType, full_access, function_call}
use py_near.Models.Receipt.{
  Payload, ReceiptAction, receipt_action, ReceiptActions, done, next, delegate_fields,
}
use py_near.Models.Actions.{build_all}
use py_near.Transactions.{Bytes, NearAction, NearActions, nil, cons}
use py_near.Models.Delegate.{
  Library, ReadDelegate, KeyArgument, dataclass, key_argument, after_colon, add_key, raw_action,
  raw_actions, pop_item, bytes_to_json, from_json, from_bytes,
}

-- A function call, or a new key that is limited to calls.
abbrev pub Delegable : ReceiptAction → Type 0
Delegable (receipt_action kind p d) =
    (kind ≡ "FunctionCall")
    ⊎ ((kind ≡ "AddKey")
        × ((key : AccessKey) × (p.access_key ≡ some key) × (key.permission_type ≡ function_call)))

or_raise-eq-ok :
    {A : Type 0} (o : Option A) (e : Exception) {a : A} → or_raise o e ≡ ok a → o ≡ some a
or_raise-eq-ok none e h = cc
or_raise-eq-ok (some b) e h = cc

PermissionType-cases : (t : PermissionType) → (t ≡ function_call) ⊎ (t ≡ full_access)
PermissionType-cases function_call = inl refl
PermissionType-cases full_access = inr refl

module _ (lib : Library) where
  -- `AddKeyAction` takes an access key of py_near_primitives and no other object.
  abbrev pub TakesNoDataclass : Type 0
  TakesNoDataclass =
      (bpk : Bytes) (nonce : Json) (action : NearAction)
      → Path (Raises NearAction) (lib.add_key_action bpk (dataclass nonce)) (ok action)
      → ⊥

  -- Each action is delegable and made into the one at its place.
  abbrev pub Delegated : ReceiptActions → NearActions → Type 0
  Delegated done nil = Unit
  Delegated done (cons raw raws) = ⊥
  Delegated (next a rest) nil = ⊥
  Delegated (next a rest) (cons raw raws) =
      Delegable a × (raw_action lib a ≡ ok raw) × Delegated rest raws

  limited :
      (key : AccessKey) (ak : KeyArgument) (bpk : Bytes) (action : NearAction)
      → TakesNoDataclass
      → key_argument lib key ≡ ok ak
      → lib.add_key_action bpk ak ≡ ok action
      → key.permission_type ≡ function_call
  unfolding key_argument
  limited key ak bpk action refuses made added = elim (PermissionType-cases key.permission_type) [
    | inl limited_to_calls ↦ limited_to_calls
    | inr full ↦
        let m : key_argument lib key ≡ ok (dataclass key.nonce) = rw (full, key_argument) refl in
        let e = ok-injective (sym m ∙ made) in absurd (refuses bpk key.nonce action (rw e added))
  ]

  add_key-Limited :
      (p : Payload) (action : NearAction)
      → TakesNoDataclass
      → add_key lib p ≡ ok action
      → (key : AccessKey) × (p.access_key ≡ some key) × (key.permission_type ≡ function_call)
  unfolding add_key
  add_key-Limited p action refuses h =
      let (key, has, h1) = >>=-eq-ok (or_raise p.access_key attribute_error) _ h in
      let (ak, made, h2) = >>=-eq-ok (key_argument lib key) _ h1 in
      let (part, _, h3) = >>=-eq-ok (after_colon p.public_key) _ h2 in
      let (bpk, _, h4) = >>=-eq-ok (lib.b58decode _) _ h3 in
      (
        key,
        or_raise-eq-ok p.access_key attribute_error has,
        limited key ak bpk action refuses made h4,
      )

  raw_action-Delegable :
      (a : ReceiptAction) (raw : NearAction)
      → TakesNoDataclass
      → raw_action lib a ≡ ok raw
      → Delegable a
  unfolding raw_action
  raw_action-Delegable (receipt_action kind p d) raw refuses h =
      elim (Bool-cases (str_eq kind "FunctionCall")) [
        | inl call ↦ inl ((str_eq_iff kind "FunctionCall").0 call)
        | inr other ↦ elim (Bool-cases (str_eq kind "AddKey")) [
          | inl add ↦ inr (
            (str_eq_iff kind "AddKey").0 add,
            add_key-Limited p raw refuses (rw (other, add) at h),
          )
          | inr neither ↦ absurd (err-ne-ok (rw (other, neither) at h))
        ]
      ]

  raw_actions-Delegated :
      (actions : ReceiptActions) (raws : NearActions)
      → TakesNoDataclass
      → raw_actions lib actions ≡ ok raws
      → Delegated actions raws
  unfolding raw_actions
  raw_actions-Delegated done raws refuses h = subst (Delegated done) (ok-injective h) tt
  raw_actions-Delegated (next a rest) raws refuses h =
      let (raw, e, h1) = >>=-eq-ok (raw_action lib a) _ h in
      let (raws', e', h2) = >>=-eq-ok (raw_actions lib rest) _ h1 in
      subst (Delegated (next a rest)) (ok-injective h2)
        (raw_action-Delegable a raw refuses e, e, raw_actions-Delegated rest raws' refuses e')

  from_json-Delegated :
      (read : Json) (m : ReadDelegate)
      → TakesNoDataclass
      → from_json lib read ≡ ok m
      → (v : Json) × (fs : Fields) × (actions : ReceiptActions) × (pop_item read "actions"
          ≡ ok (v, fs))
        × (build_all lib.codec v ≡ ok actions)
        × Delegated actions m.actions
  unfolding from_json
  from_json-Delegated read m refuses h =
      let ((v, fs), popped, h1) = >>=-eq-ok (pop_item read "actions") _ h in
      let (actions, built, h2) = >>=-eq-ok (build_all lib.codec v) _ h1 in
      let (raws, made, h3) = >>=-eq-ok (raw_actions lib actions) _ h2 in
      let (fields, _, h4) = >>=-eq-ok (delegate_fields fs) _ h3 in
      (
        v,
        fs,
        actions,
        popped,
        built,
        subst (Delegated actions) (ap (λ (r : ReadDelegate). r.actions) (ok-injective h4))
            (raw_actions-Delegated actions raws refuses made),
      )

  -- If `AddKeyAction` takes no access key of models.py: when the model of a delegate action is read
  -- from bytes, each of the actions built from its JSON is a function call or a new key that is
  -- limited to calls, and is made into the action at its place; there are no others.
  pub from_bytes-Delegated :
      (data' : Bytes) (m : ReadDelegate)
      → TakesNoDataclass
      → from_bytes lib data' ≡ ok m
      → (read : Json) × (v : Json) × (fs : Fields) × (actions : ReceiptActions) × (bytes_to_json lib
            data'
          ≡ ok read)
        × (pop_item read "actions" ≡ ok (v, fs))
        × (build_all lib.codec v ≡ ok actions)
        × Delegated actions m.actions
  unfolding from_bytes
  from_bytes-Delegated data' m refuses h =
      let (read, e, h1) = >>=-eq-ok (bytes_to_json lib data') _ h in
      let (v, fs, actions, popped, built, made) = from_json-Delegated read m refuses h1 in
      (read, v, fs, actions, e, popped, built, made)

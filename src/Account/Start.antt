-- ===== src/Account/Start.antt =====
-- What holds of an account that `Account.__init__` of src/py_near/account.py has made.
use py_near.Base.{
  String, Bool, true, false, List, [], ◌∷◌, ◌++◌, ok, err, ◌≡◌, refl, ap, subst, if◌then◌else◌,
}
use py_near.Errors.Exception.{Raises}
use py_near.Provider.Client.{RpcAddr}
use py_near.Transactions.{Bytes, Key, text, bytes, Primitives, key_bytes}
use py_near.Transactions
use py_near.Account.State.{
  Account, verify_key, is_ascii, with_public_key, with_private_key, add_key, next_key, add_keys,
  new_account, without_keys,
}

-- `_signer_by_pk[key] = pk`, `put_nowait(pk)` and `append(pk)`.
abbrev pub with_signer : Bytes → Bytes → Account → Account
with_signer key pk a = record a {
  signer_by_pk = (verify_key key, pk) ∷ a.signer_by_pk;
  free_signers = a.free_signers ++ (pk ∷ []);
  signers = a.signers ++ (pk ∷ []);
}

-- A property that each key which is added keeps holds of every account that is made.
module _ (prim : Primitives) (P : Account → Type 0)
    (step : (key pk : Bytes) (a : Account) → P a → P (with_signer key pk a)) where
  abbrev Made : Raises Account → Type 0
  Made (ok a) = P a
  Made (err e) = Unit {0}

  with_public_key-Made :
      (pk : Bytes) (a : Account) (r : Raises Bytes) → P a → Made (with_public_key prim pk a r)
  with_public_key-Made pk a (ok key) h = step key pk a h
  with_public_key-Made pk a (err e) h = tt

  with_private_key-Made : (a : Account) (r : Raises Bytes) → P a → Made (with_private_key prim a r)
  with_private_key-Made a (ok pk) h =
      with_public_key-Made pk a (Transactions.public_key_of prim pk) h
  with_private_key-Made a (err e) h = tt

  either :
      (b : Bool) (r : Raises Account) (a : Account) → Made r → P a → Made (if b then r else ok a)
  either true r a h k = h
  either false r a h k = k

  add_key-Made : (key : Key) (a : Account) → P a → Made (add_key prim key a)
  unfolding add_key
  add_key-Made (bytes pk) a h = with_private_key-Made a (ok pk) h
  add_key-Made (text s) a h =
      either (is_ascii s) _ a (with_private_key-Made a (key_bytes prim (text s)) h) h

  next_key-Made : (key : Key) (r : Raises Account) → Made r → Made (next_key prim key r)
  next_key-Made key (ok a) h = add_key-Made key a h
  next_key-Made key (err e) h = tt

  add_keys-Made : (keys : List Key) (r : Raises Account) → Made r → Made (add_keys prim keys r)
  unfolding add_keys
  add_keys-Made [] r h = h
  add_keys-Made (key ∷ rest) r h = add_keys-Made rest (next_key prim key r) (next_key-Made key r h)

  pub new_account-Made :
      (account_id : String) (keys : List Key) (addr : RpcAddr) (a : Account)
      → P (without_keys prim account_id addr)
      → new_account prim account_id keys addr ≡ ok a
      → P a
  unfolding new_account
  new_account-Made account_id keys addr a h e =
      subst Made e (add_keys-Made keys (ok (without_keys prim account_id addr)) h)

-- A new account has each of its keys in the queue of free signers, in the order of its signers.
pub new_account_queue :
    (prim : Primitives) (account_id : String) (keys : List Key) (addr : RpcAddr) (a : Account)
    → new_account prim account_id keys addr ≡ ok a
    → a.free_signers ≡ a.signers
new_account_queue prim account_id keys addr a e =
    new_account-Made prim (λ b. b.free_signers ≡ b.signers)
      (λ key pk b h. ap (λ l. l ++ (pk ∷ [])) h) account_id keys addr a refl e

-- ===== src/Account/Delegate/Unsigned.antt =====
-- Which keys of an account `_signer_by_pk` of src/py_near/account.py finds.
use py_near.Base.{String, none, some, List, ok, err, ◌≡◌, refl, ap, or_raise}
use py_near.Errors.Exception.{Exception, Raises, value_error, key_error}
use py_near.Provider.Client.{RpcAddr}
use py_near.Transactions.{Bytes, Key, Primitives, DelegateAction}
use py_near.Account.State.{Account, public_key, same_signer_key, find_signer, new_account}
use py_near.Account.Start.{with_signer, new_account-Made}
use py_near.Account.Delegate.{
  Delegating, as_near, sign_near, sign_with, sign_delegate_transaction, delegating_key,
}

-- No text is a key of the dict.
abbrev pub FindsNoText : Account → Type 0
FindsNoText a = (key : String) → find_signer (public_key key) a.signer_by_pk ≡ none

with_signer-FindsNoText :
    (key pk : Bytes) (a : Account) → FindsNoText a → FindsNoText (with_signer key pk a)
unfolding find_signer same_signer_key
with_signer-FindsNoText key pk a h name = h name

module _ (prim : Primitives) where
  new_account-FindsNoText :
      (account_id : String) (keys : List Key) (addr : RpcAddr) (a : Account)
      → new_account prim account_id keys addr ≡ ok a
      → FindsNoText a
  new_account-FindsNoText account_id keys addr a e =
      new_account-Made prim FindsNoText with_signer-FindsNoText account_id keys addr a
        (λ name. unfold find_signer in refl) e

  sign_near-raises :
      (a : Account) (r : Raises DelegateAction)
      → FindsNoText a
      → (e : Exception) × (sign_near prim a r ≡ err e)
  sign_near-raises a (err e) h = (e, refl)
  sign_near-raises a (ok d) h = (value_error, ap (sign_with prim d) (h _))

  -- An account that was made from private keys, whatever they are, signs no delegate action: the
  -- dict is filled under key objects and asked with texts. A public key that is given to
  -- `create_delegate_action` is a `KeyError` for the same reason.
  pub new_account_signs_nothing :
      (account_id : String) (keys : List Key) (addr : RpcAddr) (a : Account)
      → new_account prim account_id keys addr ≡ ok a
      → ((d : Delegating) → (e : Exception) × (sign_delegate_transaction prim a d ≡ err e))
        × ((key : String) → delegating_key (some key) a ≡ err (key_error key))
  unfolding sign_delegate_transaction delegating_key
  new_account_signs_nothing account_id keys addr a e =
      let h = new_account-FindsNoText account_id keys addr a e in
      (
        (λ d. sign_near-raises a (as_near prim d) h),
        (λ key. ap (λ o. or_raise o (key_error key)) (h key)),
      )

-- ===== src/Account/State.antt =====
-- The fields of `Account` of src/py_near/account.py, its constructor, and the dictionary of nonces,
-- which is an attribute of the class: all accounts of a process share it. The locks of the class
-- are made and never taken, so they have no field here.
use Prim.Native.Char.{code}
use py_near.Base.{
  ℕ, String, Bool, true, false, ◌&&◌, Option, none, some, List, [], ◌∷◌, ◌++◌, ok, err, ltb, ◌==◌,
  str_eq, if◌then◌else◌,
}
use py_near.Constants.{timeout_wait_rpc}
use py_near.Json.{Json, num, str}
use py_near.Errors.Exception.{Raises}
use py_near.Provider.Network.{Network}
use py_near.Provider.Client.{JsonProvider, RpcAddr, new_provider}
use py_near.Transactions.{Bytes, Key, text, bytes, Primitives, key_bytes, public_key_of}

-- A key of the dict `_signer_by_pk`: a `VerifyKey` object equals no text.
pub data SignerKey : Type 0 where
  verify_key : Bytes → SignerKey
  public_key : String → SignerKey

-- The time stamp is in microseconds, and 0 at first.
pub record Account : Type 0 where
  pub provider : JsonProvider
  pub account_id : String
  pub free_signers : List Bytes
  pub signers : List Bytes
  pub signer_by_pk : List (SignerKey × Bytes)
  pub latest_block_hash : Option Json
  pub latest_block_hash_ts : ℕ
  pub latest_block_height : Json
  pub chain_id : Json

unfoldable pub same_bytes : Bytes → Bytes → Bool
same_bytes [] [] = true
same_bytes (a ∷ as') (b ∷ bs) = (a == b) && same_bytes as' bs
same_bytes [] (b ∷ bs) = false
same_bytes (a ∷ as') [] = false

unfoldable pub same_signer_key : SignerKey → SignerKey → Bool
same_signer_key (verify_key a) (verify_key b) = same_bytes a b
same_signer_key (public_key s) (public_key t) = str_eq s t
same_signer_key (verify_key a) (public_key t) = false
same_signer_key (public_key s) (verify_key b) = false

-- `_signer_by_pk[key]`; the newest entry comes first.
unfoldable pub find_signer : SignerKey → List (SignerKey × Bytes) → Option Bytes
find_signer key [] = none
find_signer key ((k, pk) ∷ rest) = if same_signer_key k key then some pk else find_signer key rest

-- `_access_key_nonce[pk]` of a `defaultdict(int)`.
unfoldable pub nonce_of : Bytes → List (Bytes × Json) → Json
nonce_of pk [] = num 0
nonce_of pk ((k, nonce) ∷ rest) = if same_bytes k pk then nonce else nonce_of pk rest

-- Everything that the methods of an account change.
pub record State (net : Network) : Type 0 where
  pub account : Account
  pub nonces : List (Bytes × Json)
  pub world : net.World

-- `base58.b58decode` of a text that is not ASCII raises a `UnicodeEncodeError`.
unfoldable pub is_ascii : String → Bool
is_ascii String.[] = true
is_ascii (String.◌∷◌ c s) = ltb (code c) 128 && is_ascii s

module _ (prim : Primitives) where
  -- The end of the loop's body, for the public key of the private one.
  abbrev pub with_public_key : Bytes → Account → Raises Bytes → Raises Account
  with_public_key pk a (err e) = err e
  with_public_key pk a (ok public_key') = ok (record a {
    signer_by_pk = (verify_key public_key', pk) ∷ a.signer_by_pk;
    free_signers = a.free_signers ++ (pk ∷ []);
    signers = a.signers ++ (pk ∷ []);
  })

  abbrev pub with_private_key : Account → Raises Bytes → Raises Account
  with_private_key a (err e) = err e
  with_private_key a (ok pk) = with_public_key pk a (public_key_of prim pk)

  -- The body of the loop. A text that is not ASCII is passed over.
  unfoldable pub add_key : Key → Account → Raises Account
  unfolding is_ascii
  add_key (bytes pk) a = with_private_key a (ok pk)
  add_key (text s) a = if is_ascii s then with_private_key a (key_bytes prim (text s)) else ok a

  -- An exception ends the loop.
  abbrev pub next_key : Key → Raises Account → Raises Account
  next_key key (err e) = err e
  next_key key (ok a) = add_key key a

  -- The loop of `Account.__init__` over the private keys.
  unfoldable pub add_keys : List Key → Raises Account → Raises Account
  add_keys [] r = r
  add_keys (key ∷ rest) r = add_keys rest (next_key key r)

  -- The account before the loop.
  abbrev pub without_keys : String → RpcAddr → Account
  without_keys account_id rpc_addr = record {
    provider = new_provider rpc_addr true timeout_wait_rpc;
    account_id = account_id;
    free_signers = [];
    signers = [];
    signer_by_pk = [];
    latest_block_hash = none;
    latest_block_hash_ts = 0;
    latest_block_height = num 0;
    chain_id = str "mainnet";
  }

  -- `Account.__init__` with a list of keys; one key is the list of it, and `None` the empty one.
  unfoldable pub new_account : String → List Key → RpcAddr → Raises Account
  unfolding add_keys
  new_account account_id private_keys rpc_addr =
      add_keys private_keys (ok (without_keys account_id rpc_addr))

-- The property `signer`.
unfoldable pub signer : Account → Option Bytes
signer a = elim a.signers [ [] ↦ none | pk ∷ rest ↦ some pk ]

-- ===== src/Tests/Fixtures.antt =====
-- A network of scripted answers, and primitives that keep their input readable.
use py_near.Base.{
  ok, err, map, String, true, Option, none, some, List, [], ◌∷◌, str_eq, if◌then◌else◌,
}
use py_near.Json.{Json, num, str, obj, field, end, single}
use py_near.Provider.Network.{replied, Network, Outcome, raised}
use py_near.Provider.Client.{JsonProvider, address}
use py_near.Errors.Exception.{type_error}
use py_near.Transactions.{delegate, stake, number, words, Bytes, Primitives}
use py_near.Account.State.{Account, verify_key, without_keys}

-- The answers that are still to come; after the last one each request raises.
abbrev answer_of : List Outcome → Outcome × List Outcome
answer_of [] = (raised, [])
answer_of (out ∷ rest) = (out, rest)

-- The JSON text of a good answer, of an answer with an error, and of a status.
abbrev pub good_answer : Json
good_answer = single "result" (num 7)

abbrev pub bad_answer : Json
bad_answer = single "error" (str "busy")

abbrev pub status_answer : Json
status_answer = single "result" (
    single "sync_info" (
      obj (
        field "latest_block_hash" (str "block")
          (field "latest_block_height" (num 9) (field "syncing" (num 0) end)))))

-- The answer to a query for an access key.
abbrev pub key_answer : Json
key_answer = single "result" (
    obj (
      field "block_hash" (str "block") (
        field "block_height" (num 9)
          (field "nonce" (num 7) (field "permission" (str "FullAccess") end)))))

abbrev texts : String → Option Json
texts s =
    if str_eq s "good"
    then some good_answer
    else if str_eq s "bad"
    then some bad_answer
    else if str_eq s "key"
    then some key_answer
    else if str_eq s "status"
    then some status_answer
    else none

abbrev pub net : Network
net = record {
  World = List Outcome;
  post = λ request w. answer_of w;
  gather = λ addrs f w. ([], w);
  sleep = λ seconds w. w;
  utcnow = λ w. 100_000_000;
  as_local = λ t. t;
  loads = texts;
  fromisoformat = λ s. none;
  digest = λ v. elim v [ num n ↦ n | _ ↦ 0 ];
  codec = record { b64decode = λ s. none; loads_bytes = λ bytes. none };
}

-- A provider of two nodes.
abbrev pub two_nodes : JsonProvider
two_nodes = record {
  rpc_addresses = "http://a" ∷ "http://b" ∷ [];
  available_rpcs = "http://a" ∷ "http://b" ∷ [];
  allow_broadcast = true;
  timeout = 600;
}

-- Bytes are read from any text as three numbers, and written as their sort.
abbrev pub prim : Primitives
prim = record {
  b58decode = λ s. some (1 ∷ 2 ∷ 3 ∷ []);
  b58encode = λ bytes. "base58";
  b64encode = λ bytes. "base64";
  verify_key = λ seed. some seed;
  sign = λ pk message. some message;
  to_vec = λ t pk. some t.public_key;
  get_hash = λ t. t.public_key;
  nep461_hash = λ d. [];
  delegate_action = λ sender receiver actions nonce height pk.
      ok (delegate sender receiver actions nonce height pk);
  stake_action =
      λ amount pk. elim amount [ number n ↦ ok (stake (number n) pk) | words s ↦ err type_error ];
  dumps = λ v. [];
  loads_chars = λ chars. none;
}

-- A network whose nodes all give the same good answer, in one set.
abbrev pub crowd : Network
crowd = record net {
  gather = λ addrs f w. (map (λ addr. (addr, replied 200 "good")) addrs ∷ [], w);
}

abbrev pub key : Bytes
key = 1 ∷ 2 ∷ []

-- The account that is made from one key.
abbrev pub made : Account
made = record (without_keys prim "alice.near" (address "http://a")) {
  free_signers = key ∷ [];
  signers = key ∷ [];
  signer_by_pk = (verify_key key, key) ∷ [];
}

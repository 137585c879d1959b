-- ===== src/Provider/Broadcast.antt =====
-- `call_rpc_request` of src/py_near/providers.py with broadcast or a threshold.
pub mod Agreement
pub mod Threshold
pub mod First
pub mod Order
pub mod Election
use py_near.Base.{
  ℕ, zero, suc, true, false, Option, none, some, List, [], ◌∷◌, ◌++◌, map, ◌==◌, leb, ltb, length,
  ok, err, if◌then◌else◌,
}
use py_near.Json.{Json, null}
use py_near.Python.{contains}
use py_near.Errors.Exception.{Raises, rpc_empty_response}
use py_near.Provider.Network.{Network}
use py_near.Provider.Majority.{most_frequent_by_hash}

-- The variables of the loop with broadcast.
pub record Gathered : Type 0 where
  pub result : Json
  pub responses : List Json

pub data Flow : Type 0 where
  returns : Json → Flow
  goes_on : Gathered → Flow

abbrev pub at_start : Gathered
at_start = record { result = null; responses = [] }

-- `for task in done`. A `threshold` of `None` is 0.
unfoldable pub wave : ℕ → List (Raises Json) → Gathered → Flow
wave threshold [] g = goes_on g
wave threshold (err e ∷ done) g = wave threshold done g
wave threshold (ok v ∷ done) g = elim (contains "error" v) [
  | err e ↦ wave threshold done (record g { result = v })
  | ok true ↦ wave threshold done (record { result = v; responses = g.responses ++ (v ∷ []) })
  | ok false ↦ elim (leb threshold 1) [
    | true ↦ returns v
    | false ↦ wave threshold done (record { result = v; responses = g.responses ++ (v ∷ []) })
  ]
]

module _ (net : Network) where
  open net use {digest}

  -- The responses with a given hash.
  unfoldable pub with_hash : ℕ → List Json → List Json
  with_hash h [] = []
  with_hash h (x ∷ xs) = if digest x == h then x ∷ with_hash h xs else with_hash h xs

  -- `if responses and threshold`: the first of the responses that agree, if they are enough.
  unfoldable pub agreed : ℕ → List Json → Raises (Option Json)
  unfolding with_hash
  agreed threshold [] = ok none
  agreed zero (x ∷ xs) = ok none
  agreed (suc t) (x ∷ xs) = elim (most_frequent_by_hash (map digest (x ∷ xs))) [
    | err e ↦ err e
    | ok h ↦ elim (with_hash h (x ∷ xs)) [
      | [] ↦ ok none
      | y ∷ ys ↦ ok (if leb (suc t) (length (y ∷ ys)) then some y else none)
    ]
  ]

  -- `while pending`, over the sets of tasks in the order in which they end.
  unfoldable pub broadcast_loop : ℕ → List (List (Raises Json)) → Gathered → Raises Json
  unfolding wave agreed
  broadcast_loop threshold [] g = if ltb 0 threshold then err rpc_empty_response else ok g.result
  broadcast_loop threshold (done ∷ waves) g = elim (wave threshold done g) [
    | returns v ↦ ok v
    | goes_on g' ↦ elim (agreed threshold g'.responses) [
      | err e ↦ err e
      | ok (some v) ↦ ok v
      | ok none ↦ broadcast_loop threshold waves g'
    ]
  ]

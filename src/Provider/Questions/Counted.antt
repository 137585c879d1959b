-- ===== src/Provider/Questions/Counted.antt =====
-- How many transactions are submitted between two states of a network that remembers the requests of
-- src/py_near/providers.py.
use mathlib.Core.List.{append_assoc}
use py_near.Base.{
  ℕ, ◌+◌, ◌≤◌, String, Bool, some, List, [], ◌∷◌, ◌++◌, All-append, All-map, Memᴰ, length,
  length-append, Mem-append_left, Mem-append_right, ◌≡◌, ◌⊎◌, refl, sym, ap, ◌∙◌, inl, inr, arith,
}
use py_near.Json.{Json, str}
use py_near.Provider.Network.{Network, Request}
use py_near.Provider.Recorded.{method_of, AsksFor, OnlyPosted, OnlyAsked}
use py_near.Provider.Questions.Submissions.{submission, Submits}

-- A body that submits one of the transactions, looks for one, or asks.
abbrev pub SubmitsOneOf : List String → Json → Type 0
SubmitsOneOf txs body =
    ((tx : String) × (nowait included : Bool) × Memᴰ tx txs
      × (body ≡ submission nowait included tx))
    ⊎ (method_of body ≡ some (str "tx"))
    ⊎ AsksFor body

widen :
    (txs txs' : List String) (body : Json)
    → ((tx : String) → Memᴰ tx txs → Memᴰ tx txs')
    → SubmitsOneOf txs body
    → SubmitsOneOf txs' body
widen txs txs' body f (inl (tx, nowait, included, m, e)) = inl (tx, nowait, included, f tx m, e)
widen txs txs' body f (inr h) = inr h

module _ (net : Network) where
  -- At most so many transactions are submitted between the two, and nothing else is posted but
  -- questions and looks for a transaction.
  abbrev pub AtMost : ℕ → net.World × List Request → net.World × List Request → Type 0
  AtMost n w w' = (txs : List String) × (length txs ≤ n) × OnlyPosted net w.1 (SubmitsOneOf txs) w'

  pub AtMost-none : (n : ℕ) (w : net.World × List Request) → AtMost n w w
  AtMost-none n w = ([], omega arith, ([], refl, tt))

  pub AtMost-asked :
      (n : ℕ) (w w' : net.World × List Request) → OnlyAsked net w.1 w' → AtMost n w w'
  AtMost-asked n w w' (new, e, asked) =
      ([], omega arith, (new, e, All-map (λ r q. inr (inr q)) new asked))

  pub AtMost-one :
      (nowait included : Bool) (tx : String) (w w' : net.World × List Request)
      → OnlyPosted net w.1 (Submits nowait included tx) w'
      → AtMost 1 w w'
  AtMost-one nowait included tx w w' (new, e, posted) =
      (tx ∷ [], omega arith, (new, e, All-map (λ r q. of_one r.body q) new posted))
    where
      of_one : (body : Json) → Submits nowait included tx body → SubmitsOneOf (tx ∷ []) body
      of_one body (inl h) = inl (tx, nowait, included, Memᴰ.head refl, h)
      of_one body (inr h) = inr h

  pub AtMost-le :
      (m n : ℕ) (w w' : net.World × List Request) → m ≤ n → AtMost m w w' → AtMost n w w'
  AtMost-le m n w w' le (txs, few, posted) = (txs, omega (arith, le, few), posted)

  pub AtMost-trans :
      (m n : ℕ) (w w1 w2 : net.World × List Request)
      → AtMost m w w1
      → AtMost n w1 w2
      → AtMost (m + n) w w2
  AtMost-trans m n w w1 w2 (txs, few, (new, e, posted)) (txs', few', (new', e', posted')) = (
    txs ++ txs',
    omega (arith, length-append txs txs', few, few'),
    (
      new' ++ new,
      e' ∙ ap (λ l. new' ++ l) e ∙ sym (append_assoc new' new w.1),
      All-append (λ r. SubmitsOneOf (txs ++ txs') r.body) new' new
          (All-map (λ r. widen txs' (txs ++ txs') r.body (λ tx. Mem-append_right txs txs')) new'
            posted')
          (All-map (λ r. widen txs (txs ++ txs') r.body (λ tx. Mem-append_left txs txs')) new
            posted),
    ),
  )

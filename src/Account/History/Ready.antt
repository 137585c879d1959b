-- ===== src/Account/History/Ready.antt =====
-- The queue of free signers of src/py_near/account.py over any number of calls.
use py_near.Base.{
  All-append, All-self, measures, ℕ, suc, ◌+◌, ◌≤◌, String, Bool, Option, none, some, List, [], ◌∷◌,
  ◌++◌, length, All, Memᴰ, Result, ok, err, ◌≡◌, refl, sym, ap, ◌∙◌, subst, arith,
}
use py_near.Json.{Json}
use py_near.Provider.Network.{Network}
use py_near.Provider.Client.{RpcAddr}
use py_near.Transactions.{Bytes, Key, NearActions, Primitives}
use py_near.Account.State.{Account, State, new_account}
use py_near.Account.Start.{new_account_queue}
use py_near.Account.Queue.{Turn, untouched, turned, returned, refused, sign_and_submit_tx-Turn}
use py_near.Account.Submit.{Sent, Failure, sign_and_submit_tx}
use py_near.Account.History.{identity, sign_and_submit_tx-held}

-- The arguments of a call.
pub record Arguments : Type 0 where
  pub receiver_id : String
  pub actions : NearActions
  pub nowait : Bool
  pub included : Bool

abbrev pub hash_count : Option String → ℕ
hash_count none = 0
hash_count (some _) = 1

-- 1 for a call that has sent its transaction: it returns, or its exception has the hash.
abbrev pub sent : Result Failure Sent → ℕ
sent (ok _) = 1
sent (err f) = hash_count f.trx_hash

abbrev pub all_sent : List (Result Failure Sent) → ℕ
all_sent [] = 0
all_sent (r ∷ rs) = sent r + all_sent rs

hash_count-le : (h : Option String) → hash_count h ≤ 1
hash_count-le none = omega arith
hash_count-le (some _) = omega arith

sent-le : (r : Result Failure Sent) → sent r ≤ 1
sent-le (ok _) = omega arith
sent-le (err f) = hash_count-le f.trx_hash

all_sent-le-length : (rs : List (Result Failure Sent)) → all_sent rs ≤ length rs
all_sent-le-length [] = omega arith
all_sent-le-length (r ∷ rs) = omega (arith, sent-le r, all_sent-le-length rs)

-- A list with a first element.
abbrev pub Filled : List Bytes → Type 0
Filled l = (pk : Bytes) × (rest : List Bytes) × (l ≡ pk ∷ rest)

pub Filled-snoc : (l : List Bytes) (pk : Bytes) → Filled (l ++ (pk ∷ []))
Filled-snoc [] pk = (pk, [], refl)
Filled-snoc (x ∷ l) pk = (x, _, refl)

module _ (prim : Primitives) (net : Network) where
  -- The queue after a turn: filled, with no new keys, and one longer if the transaction was sent.
  module _ (P : Bytes → Type 0) (pk : Bytes) (rest : List Bytes) where
    abbrev Turned : Result Failure Sent → List Bytes → Type 0
    Turned r l = Filled l × All P l × (length l ≡ suc (length rest) + sent r)

    turned_list : List Bytes
    turned_list = rest ++ (pk ∷ [])

    Turn-Turned :
        (r : Result Failure Sent) (l : List Bytes)
        → P pk
        → All P rest
        → Turn prim net pk rest r l
        → Turned r l
    unfolding turned_list
    Turn-Turned r l p ps (untouched f e) =
        ((pk, rest, refl), (p, ps), omega (arith, ap hash_count e))
    Turn-Turned r l p ps (turned f e) = (
      Filled-snoc rest pk,
      All-append P rest (pk ∷ []) ps (p, tt),
      grind (measures, ap hash_count e),
    )
    Turn-Turned r l p ps (returned _) = (
      Filled-snoc turned_list pk,
      All-append P turned_list (pk ∷ []) (All-append P rest (pk ∷ []) ps (p, tt)) (p, tt),
      grind measures,
    )
    Turn-Turned r l p ps (refused f h e) = (
      Filled-snoc turned_list pk,
      All-append P turned_list (pk ∷ []) (All-append P rest (pk ∷ []) ps (p, tt)) (p, tt),
      grind (measures, ap hash_count e),
    )

  abbrev pub free : State net → List Bytes
  free s = s.account.free_signers

  abbrev pub OfSigners : State net → Bytes → Type 0
  OfSigners s k = Memᴰ k s.account.signers

  -- A call can start: there is a signer, a key is free, and every free key is a signer's.
  pub record Ready (s : State net) : Type 0 where
    pub has_signer : Filled s.account.signers
    pub has_free : Filled (free s)
    pub of_signers : All (OfSigners s) (free s)

  -- The call with its arguments.
  abbrev pub call : Arguments → State net → Option (Result Failure Sent × State net)
  call c = sign_and_submit_tx prim net c.receiver_id c.actions c.nowait c.included

  -- Calls one after another, each from the state that the one before it has left, with what they
  -- return or raise.
  pub data Runs : List Arguments → State net → List (Result Failure Sent) → State net → Type 0 where
    stop : (s : State net) → Runs [] s [] s
    step :
        {c : Arguments} {calls : List Arguments} {s s' s2 : State net}
        → {r : Result Failure Sent} {rs : List (Result Failure Sent)} → call c s ≡ some (r, s')
        → Runs calls s' rs s2
        → Runs (c ∷ calls) s (r ∷ rs) s2

  -- What a call does to a state from which it can start.
  abbrev pub Called : Arguments → State net → Type 0
  Called c s =
      (r : Result Failure Sent) × (s' : State net) × (call c s ≡ some (r, s'))
      × Ready s'
      × (identity s'.account ≡ identity s.account)
      × (length (free s') ≡ length (free s) + sent r)

  pub called : (c : Arguments) (s : State net) → Ready s → Called c s
  called c s ready =
      let (first, others, signers) = ready.has_signer in
      let (pk, rest, queue) = ready.has_free in
      let (r, s', ended, turn) =
        sign_and_submit_tx-Turn prim net c.receiver_id c.actions c.nowait c.included pk first rest
          others s signers queue in
      let same =
        sign_and_submit_tx-held prim net c.receiver_id c.actions c.nowait c.included s s' r ended in
      let same_signers : s'.account.signers ≡ s.account.signers = ap (λ i. i.signers) same in
      let (p, ps) = subst (All (OfSigners s)) queue ready.of_signers in
      let (filled, of_signers, size) = Turn-Turned (OfSigners s) pk rest r (free s') p ps turn in
      (
        r,
        s',
        ended,
        record {
          has_signer = subst Filled (sym same_signers) ready.has_signer;
          has_free = filled;
          of_signers = subst (λ l. All (λ k. Memᴰ k l) (free s')) (sym same_signers) of_signers;
        },
        same,
        omega (arith, size, ap length queue),
      )

  -- Calls that all end, with what they leave.
  abbrev pub AllEnd : List Arguments → State net → Type 0
  AllEnd calls s =
      (rs : List (Result Failure Sent)) × (s' : State net) × Runs calls s rs s'
      × Ready s'
      × (identity s'.account ≡ identity s.account)
      × (length s'.account.free_signers ≡ length s.account.free_signers + all_sent rs)
      × (all_sent rs ≤ length calls)

  pub calls-AllEnd : (calls : List Arguments) (s : State net) → Ready s → AllEnd calls s
  calls-AllEnd [] s ready = ([], s, stop s, ready, refl, omega arith, omega arith)
  calls-AllEnd (c ∷ calls) s ready =
      let (r, s', ended, ready', same, size) = called c s ready in
      let (rs, s2, runs, ready2, same', size', few) = calls-AllEnd calls s' ready' in
      (
        r ∷ rs,
        s2,
        step ended runs,
        ready2,
        same' ∙ same,
        omega (arith, size, size'),
        omega (arith, few, sent-le r),
      )

  pub new_account-Ready :
      (account_id : String) (keys : List Key) (addr : RpcAddr) (a : Account)
      → (nonces : List (Bytes × Json)) (w : net.World) → Filled a.signers
      → new_account prim account_id keys addr ≡ ok a
      → Ready (record { account = a; nonces = nonces; world = w })
  new_account-Ready account_id keys addr a nonces w filled made =
      let same = new_account_queue prim account_id keys addr a made in
      record {
        has_signer = filled;
        has_free = subst Filled (sym same) filled;
        of_signers =
            subst (All (λ k. Memᴰ k a.signers)) (sym same)
              (All-self a.signers a.signers (λ k m. m));
      }

  -- An account that was made with some key, in any world and with any nonces: calls of
  -- `sign_and_submit_tx` one after another all end, whatever they return or raise. After them there
  -- is still a free key, every free key is one of the signers, the queue is longer by one key for
  -- each transaction that was sent, by at most one for each call, and the keys, the name, the chain
  -- and the provider are as they were.
  pub new_account_calls-AllEnd :
      (account_id : String) (keys : List Key) (addr : RpcAddr) (a : Account)
      → (nonces : List (Bytes × Json)) (w : net.World) (calls : List Arguments) → Filled a.signers
      → new_account prim account_id keys addr ≡ ok a
      → AllEnd calls (record { account = a; nonces = nonces; world = w })
  new_account_calls-AllEnd account_id keys addr a nonces w calls filled made =
      calls-AllEnd calls _ (new_account-Ready account_id keys addr a nonces w filled made)

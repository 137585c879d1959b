-- ===== src/Provider/Broadcast/Threshold.antt =====
-- What `call_rpc_request` of src/py_near/providers.py returns with broadcast and with a threshold.
use py_near.Base.{
  Mem-append_left, measures, Memᴰ, ℕ, ◌≤◌, ◌<◌, none, some, List, [], ◌∷◌, ◌++◌, map, length, ok,
  err, ◌≡◌, arith, ◌⊎◌, inl, inr, ap, count-le-length, ◌∙◌,
}
use mathlib.Core.List.{append_assoc, append-nil}
use py_near.Json.{Json}
use py_near.Errors.Exception.{Raises, rpc_empty_response}
use py_near.Provider.Network.{Network}
use py_near.Provider.Broadcast.{Gathered, goes_on, wave, agreed, broadcast_loop, at_start}
use py_near.Provider.Broadcast.Agreement.{
  kept, recorded, wave-responses, raises, bad, good, answer, votes, votes-append, agreed_cases,
}

-- All responses that the tasks give, in the order in which they end.
abbrev pub all_recorded : List (List (Raises Json)) → List Json
all_recorded [] = []
all_recorded (done ∷ waves) = recorded done ++ all_recorded waves

module _ (net : Network) where
  open net use {digest}

  -- A step of the loop whose tasks return nothing by themselves.
  loop-step :
      (t : ℕ) (done : List (Raises Json)) (waves : List (List (Raises Json))) (g g' : Gathered)
      → wave t done g ≡ goes_on g'
      → agreed net t g'.responses ≡ ok none
      → broadcast_loop net t (done ∷ waves) g ≡ broadcast_loop net t waves g'
  unfolding broadcast_loop
  loop-step t done waves g g' p q = rw (p, broadcast_loop) (rw q)

  loop-agrees :
      (t : ℕ) (done : List (Raises Json)) (waves : List (List (Raises Json))) (g g' : Gathered)
      (v : Json)
      → wave t done g ≡ goes_on g'
      → agreed net t g'.responses ≡ ok (some v)
      → broadcast_loop net t (done ∷ waves) g ≡ ok v
  unfolding broadcast_loop
  loop-agrees t done waves g g' v p q = rw (p, broadcast_loop) (rw q)

  loop-ends : (t : ℕ) (g : Gathered) → 0 < t → broadcast_loop net t [] g ≡ err rpc_empty_response
  unfolding broadcast_loop
  loop-ends t g pos = ground arith

  -- The verdict of the loop on responses that have come so far and those that are to come.
  abbrev pub Verdict : ℕ → List Json → Raises Json → Type 0
  Verdict t rs r =
      ((v : Json) × (r ≡ ok v) × Memᴰ v rs × (t ≤ votes net (digest v) rs))
      ⊎ ((r ≡ err rpc_empty_response) × ((h : ℕ) → votes net h rs < t))

  loop-Verdict :
      (t : ℕ) (waves : List (List (Raises Json))) (g : Gathered)
      → 1 < t
      → ((h : ℕ) → votes net h g.responses < t)
      → Verdict t (g.responses ++ all_recorded waves) (broadcast_loop net t waves g)
  loop-Verdict t [] g big few = rw append-nil (inr (loop-ends t g (omega arith), few))
  loop-Verdict t (done ∷ waves) g big few =
      let (g', p, q) = wave-responses t done g big in
      let joined : g'.responses ++ all_recorded waves ≡ g.responses ++ all_recorded (done ∷ waves) =
        ap (λ rs. rs ++ all_recorded waves) q
        ∙ append_assoc g.responses (recorded done) (all_recorded waves) in
      rw (← joined) (elim (agreed_cases net t g'.responses (omega arith)) [
        | inl (v, a, m, enough) ↦ inl (
          v,
          loop-agrees t done waves g g' v p a,
          Mem-append_left g'.responses _ m,
          omega (arith, votes-append net (digest v) g'.responses (all_recorded waves)),
        )
        | inr (a, few') ↦ rw (loop-step t done waves g g' p a) (loop-Verdict t waves g' big few')
      ])

  -- With a threshold of two or more: if a response is returned it is one that was received, and at
  -- least `t` of all the responses have its hash; otherwise `RpcEmptyResponse` is raised, and no
  -- hash has `t` responses.
  pub threshold_exact :
      (t : ℕ) (waves : List (List (Raises Json)))
      → 1 < t
      → Verdict t (all_recorded waves) (broadcast_loop net t waves at_start)
  threshold_exact t waves big = loop-Verdict t waves at_start big (λ h. omega arith)

abbrev pub joined : List (List (Raises Json)) → List (Raises Json)
joined [] = []
joined (done ∷ waves) = done ++ joined waves

pub length-recorded : (done : List (Raises Json)) → length (recorded done) ≤ length done
length-recorded [] = omega arith
length-recorded (err e ∷ done) = omega (arith, length-recorded done)
length-recorded (ok v ∷ done) = elim (answer v) [
  | raises e c ↦ rw (c, kept) (omega (arith, length-recorded done))
  | bad c ↦ rw (c, kept) (omega (arith, length-recorded done))
  | good c ↦ rw (c, kept) (omega (arith, length-recorded done))
]

length-all_recorded :
    (waves : List (List (Raises Json))) → length (all_recorded waves) ≤ length (joined waves)
length-all_recorded [] = omega arith
length-all_recorded (done ∷ waves) =
    grind (measures, length-recorded done, length-all_recorded waves)

module _ (net : Network) where
  open net use {digest}

  -- Fewer tasks than the threshold never reach it.
  pub threshold_above_tasks :
      (t : ℕ) (waves : List (List (Raises Json)))
      → 1 < t
      → length (joined waves) < t
      → broadcast_loop net t waves at_start ≡ err rpc_empty_response
  threshold_above_tasks t waves big few = elim (threshold_exact net t waves big) [
    | inl (v, e, m, enough) ↦ absurd (
        grind (
          measures,
          count-le-length (digest v) (map digest (all_recorded waves)),
          length-all_recorded waves,
        ))
    | inr (e, few') ↦ e
  ]

-- ===== src/Provider/Broadcast/First.antt =====
-- `call_rpc_request` of src/py_near/providers.py with broadcast and no threshold.
use py_near.Base.{none, List, [], ◌∷◌, ◌++◌, ok, err, ◌≡◌, refl, arith, ◌∙◌, ap, sym}
use py_near.Json.{Json, null}
use py_near.Errors.Exception.{Raises}
use py_near.Provider.Answers.{chosen}
use py_near.Provider.Network.{Network}
use py_near.Provider.Broadcast.{
  Gathered, Flow, returns, goes_on, wave, agreed, broadcast_loop, at_start,
}
use py_near.Provider.Broadcast.Agreement.{
  wave_raises, wave_error, wave_returns, wave_skips, with_response, raises, bad, good, answer,
}
use py_near.Provider.Broadcast.Threshold.{joined}

abbrev after : List (Raises Json) → Flow → Json
after rest (returns v) = v
after rest (goes_on g) = chosen rest g.result

wave-chosen :
    (done rest : List (Raises Json)) (g : Gathered)
    → chosen (done ++ rest) g.result ≡ after rest (wave 0 done g)
wave-chosen [] rest g = unfold wave in refl
wave-chosen (err e ∷ done) rest g = rw (wave_skips 0 e done g) (wave-chosen done rest g)
wave-chosen (ok v ∷ done) rest g = elim (answer v) [
  | raises e c ↦
      rw (wave_raises 0 v done g c)
        (rw (c, chosen) (wave-chosen done rest (record g { result = v })))
  | bad c ↦
      rw (wave_error 0 v done g c)
        (rw (c, chosen) (wave-chosen done rest (with_response 0 v done g)))
  | good c ↦ rw (wave_returns 0 v done g c (omega arith)) (rw (c, chosen))
]

module _ (net : Network) where
  agreed-zero : (rs : List Json) → agreed net 0 rs ≡ ok none
  unfolding agreed
  agreed-zero [] = refl
  agreed-zero (x ∷ rs) = refl

  loop-returns :
      (done : List (Raises Json)) (waves : List (List (Raises Json))) (g : Gathered) (v : Json)
      → wave 0 done g ≡ returns v
      → broadcast_loop net 0 (done ∷ waves) g ≡ ok v
  unfolding broadcast_loop
  loop-returns done waves g v e = rw (e, broadcast_loop)

  loop-goes_on :
      (done : List (Raises Json)) (waves : List (List (Raises Json))) (g g' : Gathered)
      → wave 0 done g ≡ goes_on g'
      → broadcast_loop net 0 (done ∷ waves) g ≡ broadcast_loop net 0 waves g'
  unfolding broadcast_loop
  loop-goes_on done waves g g' e = rw (e, broadcast_loop) (rw (agreed-zero g'.responses))

  loop-chosen :
      (waves : List (List (Raises Json))) (g : Gathered)
      → broadcast_loop net 0 waves g ≡ ok (chosen (joined waves) g.result)
  loop-chosen [] g = unfold broadcast_loop in refl
  loop-chosen (done ∷ waves) g = from (wave 0 done g) refl (loop-chosen waves)
    where
      from :
          (f : Flow)
          → wave 0 done g ≡ f
          → ((g' : Gathered) → broadcast_loop net 0 waves g' ≡ ok (chosen (joined waves) g'.result))
          → broadcast_loop net 0 (done ∷ waves) g ≡ ok (chosen (joined (done ∷ waves)) g.result)
      from (returns v) e ih =
          loop-returns done waves g v e
          ∙ ap ok (sym (wave-chosen done (joined waves) g ∙ ap (after (joined waves)) e))
      from (goes_on g') e ih =
          loop-goes_on done waves g g' e
          ∙ ih g'
          ∙ ap ok (sym (wave-chosen done (joined waves) g ∙ ap (after (joined waves)) e))

  -- A broadcast without a threshold returns the first good answer in the order in which the tasks
  -- end, however `asyncio.wait` groups them, or the last value of all if no answer is good.
  pub broadcast_first :
      (waves : List (List (Raises Json)))
      → broadcast_loop net 0 waves at_start ≡ ok (chosen (joined waves) null)
  broadcast_first waves = loop-chosen waves at_start

-- ===== src/Provider/Rpc/Agreed.antt =====
-- What `json_rpc` of src/py_near/providers.py returns under a threshold.
use py_near.Base.{
  ℕ, ◌≤◌, ◌<◌, String, Bool, true, false, ◌||◌, not, List, map, ◌==◌, ok, err, ◌≡◌, refl, arith, ap,
  sym, ◌∙◌, inl, inr, Memᴰ,
}
use py_near.Base.Method.{continued, lift}
use py_near.Json.{Json}
use py_near.Errors.Exception.{Raises, rpc_empty_response}
use py_near.Provider.Network.{Network}
use py_near.Provider.Client.{JsonProvider, rpc_body, request_to, finished}
use py_near.Provider.Broadcast.{broadcast_loop, at_start}
use py_near.Provider.Broadcast.Agreement.{votes}
use py_near.Provider.Broadcast.Threshold.{Verdict, all_recorded, threshold_exact}
use py_near.Provider.Calls.{call_rpc_request}
use py_near.Provider.Rpc.{result_of, json_rpc}

module _ (net : Network) (p : JsonProvider) (method : String) (params : Json) where
  open net use {World, gather, digest}

  -- The tasks as they end.
  abbrev pub ended : World → List (List (Raises Json))
  ended w =
      let body = rpc_body method params in
      map (map (finished net p body)) (gather p.available_rpcs (request_to p body) w).0

  above : (b : Bool) (t : ℕ) → 1 < t → (b || not (t == 0)) ≡ true
  above true t h = refl
  above false t h = ground arith

  gathered :
      (broadcast : Bool) (t : ℕ) (w : World)
      → 1 < t
      → (w' : World) × (call_rpc_request net p method params broadcast t w
          ≡ (broadcast_loop net t (ended w) at_start, w'))
  unfolding call_rpc_request
  gathered broadcast t w h =
      let body = rpc_body method params in
      ((gather p.available_rpcs (request_to p body) w).1, rw (above broadcast t h))

  -- An answer that was received, that gives the result, and that enough of the others agree with.
  abbrev pub Agreed : ℕ → World → Json → Type 0
  Agreed t w result =
      (v : Json) × (result_of net v ≡ ok result)
      × Memᴰ v (all_recorded (ended w))
      × (t ≤ votes net (digest v) (all_recorded (ended w)))

  abbrev rest : Raises Json × World → Raises Json
  rest r = (continued (λ c. lift {S = World} (result_of net c)) r).0

  of_Verdict :
      (t : ℕ) (w w' : World) (result : Json) (r : Raises Json)
      → Verdict net t (all_recorded (ended w)) r
      → rest (r, w') ≡ ok result
      → Agreed t w result
  of_Verdict t w w' result r (inl (v, e, m, enough)) h =
      (v, sym (ap (λ l. rest (l, w')) e) ∙ h, m, enough)
  of_Verdict t w w' result r (inr (e, few)) h =
      let p : Path (Raises Json) (err rpc_empty_response) (ok result) =
        sym (ap (λ l. rest (l, w')) e) ∙ h in
      cc

  -- With a threshold of two or more a result is the one of an answer that was received, and at least
  -- as many of the answers received have its hash.
  pub json_rpc-Agreed :
      (broadcast : Bool) (t : ℕ) (w : World) (result : Json)
      → 1 < t
      → (json_rpc net p method params broadcast t w).0 ≡ ok result
      → Agreed t w result
  unfolding json_rpc
  json_rpc-Agreed broadcast t w result big h =
      let (w', called) = gathered broadcast t w big in
      of_Verdict t w w' result _ (threshold_exact net t (ended w) big) (sym (ap rest called) ∙ h)

-- ===== src/Provider/Questions/Statuses.antt =====
-- Which requests `get_status` of src/py_near/providers.py posts.
use py_near.Base.{String, Option, none, some, List, [], ◌∷◌, ok, err, refl, inr, str_eq}
use py_near.Json.{Json, lookup}
use py_near.Errors.Exception.{Raises}
use py_near.Provider.Network.{Network, Request}
use py_near.Provider.Address.{authorise}
use py_near.Provider.Recorded.{recorded, AsksFor, OnlyAsked, post-OnlyPosted}
use py_near.Provider.Client.{JsonProvider}
use py_near.Provider.Health.{ask_status, status_from, get_status, status_request, status_result}
use py_near.Provider.Questions.{Asks}

module _ (net : Network) (before : List Request) where
  open net use {World}

  abbrev Asked : World × List Request → Type 0
  Asked = OnlyAsked net before

  ask_status-Asks : (addr : String) → Asks net before (ask_status (recorded net) addr)
  unfolding ask_status lookup str_eq
  ask_status-Asks addr w asked = by_target (authorise addr)
    where
      by_target :
          (a : Raises (Option String × String))
          → Asked
              (elim a as (λ a. Option Json × (World × List Request)) [
                | err e ↦ (none, w)
                | ok target ↦
                    let (out, w') = (recorded net).post (status_request (recorded net) target) w in
                    (status_result (recorded net) out, w')
              ]).1
      by_target (err e) = asked
      by_target (ok target) =
          post-OnlyPosted net before AsksFor (status_request (recorded net) target) w (inr refl)
            asked

  status_from-Asks : (addrs : List String) → Asks net before (status_from (recorded net) addrs)
  unfolding status_from
  status_from-Asks [] w asked = asked
  status_from-Asks (addr ∷ rest) w asked =
      by_answer (ask_status (recorded net) addr w).0 (ask_status (recorded net) addr w).1
        (ask_status-Asks addr w asked) (status_from-Asks rest)
    where
      by_answer :
          (answer : Option Json) (w' : World × List Request)
          → Asked w'
          → Asks net before (status_from (recorded net) rest)
          → Asked
              (elim answer as (λ o. Raises Json × (World × List Request)) [
                | some v ↦ (ok v, w')
                | none ↦ status_from (recorded net) rest w'
              ]).1
      by_answer (some v) w' h others = h
      by_answer none w' h others = others w' h

  pub get_status-Asks : (p : JsonProvider) → Asks net before (get_status (recorded net) p)
  unfolding get_status
  get_status-Asks p = status_from-Asks p.available_rpcs

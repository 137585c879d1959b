-- ===== src/Provider/Health/Laws.antt =====
-- Which nodes stay available, and what `get_status` raises (src/py_near/providers.py).
use py_near.Base.{String, Bool, true, false, Option, none, some, List, [], ◌∷◌, ok, err, ◌≡◌, refl}
use py_near.Json.{Json}
use py_near.Errors.Exception.{Exception, rpc_not_available}
use py_near.Provider.Network.{Network}
use py_near.Provider.Client.{JsonProvider}
use py_near.Provider.Health.{
  probe, passed, check_all, check_available_rpcs, ask_status, status_from, get_status,
}

module _ (net : Network) where
  open net use {World}

  -- A list of addresses without those whose probe, each in its turn, does not pass.
  pub data Passing : List String → World → List String → World → Type 0 where
    none_left : (w : World) → Passing [] w [] w
    stays :
        {rest kept : List String} {w w' : World} (addr : String)
        → passed net (probe net addr w).0 ≡ true
        → Passing rest (probe net addr w).1 kept w'
        → Passing (addr ∷ rest) w (addr ∷ kept) w'
    leaves :
        {rest kept : List String} {w w' : World} (addr : String)
        → passed net (probe net addr w).0 ≡ false
        → Passing rest (probe net addr w).1 kept w'
        → Passing (addr ∷ rest) w kept w'

  check_all-cons :
      (addr : String) (rest : List String) (w : World) (b : Bool)
      → passed net (probe net addr w).0 ≡ b
      → Passing rest
          (probe net addr w).1
          (check_all net rest (probe net addr w).1).0
          (check_all net rest (probe net addr w).1).1
      → Passing (addr ∷ rest) w (check_all net (addr ∷ rest) w).0 (check_all net (addr ∷ rest) w).1
  unfolding check_all
  check_all-cons addr rest w true h k = rw h (stays addr h k)
  check_all-cons addr rest w false h k = rw h (leaves addr h k)

  check_all-Passing :
      (addrs : List String) (w : World)
      → Passing addrs w (check_all net addrs w).0 (check_all net addrs w).1
  check_all-Passing [] w = unfold check_all in none_left w
  check_all-Passing (addr ∷ rest) w =
      check_all-cons addr rest w (passed net (probe net addr w).0) refl
        (check_all-Passing rest (probe net addr w).1)

  -- After a check the available nodes are those of all the configured addresses whose probe passed,
  -- in their order: a node that was left out before is asked again. The addresses themselves stay.
  pub check_available_rpcs-Passing :
      (p : JsonProvider) (w : World)
      → let (p', w') = check_available_rpcs net p w in
        Passing p.rpc_addresses w p'.available_rpcs w' × (p'.rpc_addresses ≡ p.rpc_addresses)
  unfolding check_available_rpcs
  check_available_rpcs-Passing p w = (check_all-Passing p.rpc_addresses w, refl)

  -- What the nodes of a list answer to `get_status` when each is asked.
  abbrev pub NoStatus : List String → World → Type 0
  NoStatus [] w = Unit
  NoStatus (addr ∷ rest) w =
      ((ask_status net addr w).0 ≡ none) × NoStatus rest (ask_status net addr w).1

  status_from-cons :
      (addr : String) (rest : List String) (w : World) (e : Exception) (answer : Option Json)
      → (ask_status net addr w).0 ≡ answer
      → (status_from net (addr ∷ rest) w).0 ≡ err e
      → ((status_from net rest (ask_status net addr w).1).0 ≡ err e
          → (e ≡ rpc_not_available) × NoStatus rest (ask_status net addr w).1)
      → (e ≡ rpc_not_available) × NoStatus (addr ∷ rest) w
  unfolding status_from
  status_from-cons addr rest w e none h k rec =
      let (e_eq, others) = rec (rw (h, status_from) at k) in (e_eq, (h, others))
  status_from-cons addr rest w e (some v) h k rec =
      let e_eq : ok v ≡ err e = rw (h, status_from) at k in cc

  status_from-nil :
      (w : World) (e : Exception) → (status_from net [] w).0 ≡ err e → e ≡ rpc_not_available
  unfolding status_from
  status_from-nil w e h = cc

  status_from-raises :
      (addrs : List String) (w : World) (e : Exception)
      → (status_from net addrs w).0 ≡ err e
      → (e ≡ rpc_not_available) × NoStatus addrs w
  status_from-raises [] w e h = (status_from-nil w e h, tt)
  status_from-raises (addr ∷ rest) w e h =
      status_from-cons addr rest w e (ask_status net addr w).0 refl h
        (status_from-raises rest (ask_status net addr w).1 e)

  -- `get_status` raises nothing but `RpcNotAvailableError`, and only if no available node answers.
  pub get_status_raises :
      (p : JsonProvider) (w : World) (e : Exception)
      → (get_status net p w).0 ≡ err e
      → (e ≡ rpc_not_available) × NoStatus p.available_rpcs w
  unfolding get_status
  get_status_raises p w e h = status_from-raises p.available_rpcs w e h

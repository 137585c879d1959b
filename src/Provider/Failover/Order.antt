-- ===== src/Provider/Failover/Order.antt =====
-- The order in which `call_rpc_request` of src/py_near/providers.py asks the nodes.
use py_near.Base.{
  String, true, false, List, [], ◌∷◌, ◌++◌, ok, ◌≡◌, refl, arith, ◌∙◌, inl, inr, Bool-cases,
}
use py_near.Json.{Json}
use py_near.Python.{contains}
use py_near.Errors.Exception.{Raises}
use py_near.Provider.Answers.{is_good, value_or, chosen, NoneGood}
use py_near.Provider.Network.{Network}
use py_near.Provider.Client.{JsonProvider, ask}
use py_near.Provider.Failover.{failover}

module _ (net : Network) (p : JsonProvider) (body : Json) where
  open net use {World}

  -- The answers when every address is asked, and the world behind them.
  abbrev pub ask_all : List String → World → List (Raises Json) × World
  ask_all [] w = ([], w)
  ask_all (addr ∷ rest) w =
      let (answer, w') = ask net p body addr w in
      let (answers, w'') = ask_all rest w' in (answer ∷ answers, w'')

  failover-continues :
      (addr : String) (rest : List String) (res : Json) (w : World)
      → is_good (ask net p body addr w).0 ≡ false
      → failover net p body (addr ∷ rest) res w
        ≡ failover net p body rest
            (value_or (ask net p body addr w).0 res)
            (ask net p body addr w).1
  unfolding failover
  failover-continues addr rest res w h = ground arith

  failover-stops :
      (addr : String) (rest : List String) (res : Json) (w : World)
      → is_good (ask net p body addr w).0 ≡ true
      → failover net p body (addr ∷ rest) res w
        ≡ (value_or (ask net p body addr w).0 res, (ask net p body addr w).1)
  unfolding failover
  failover-stops addr rest res w h = ground arith

  -- The value returned is the first good answer that the addresses would give in turn, or the last
  -- value that they give if none is good.
  pub failover-chosen :
      (addrs : List String) (res : Json) (w : World)
      → (failover net p body addrs res w).0 ≡ chosen (ask_all addrs w).0 res
  failover-chosen [] res w = unfold failover in refl
  failover-chosen (addr ∷ rest) res w = elim (Bool-cases (is_good (ask net p body addr w).0)) [
    | inl good ↦ rw (failover-stops addr rest res w good) (rw (good, chosen))
    | inr bad ↦
        rw (failover-continues addr rest res w bad)
          (rw (bad, chosen) (failover-chosen rest _ (ask net p body addr w).1))
  ]

  -- When the addresses of `before` give no good answer and the one behind them does, its value is
  -- returned and nothing more is sent: the world is the one behind its answer.
  pub failover_first_good :
      (before : List String) (addr : String) (after : List String) (res : Json) (w : World)
      (v : Json)
      → NoneGood (ask_all before w).0
      → (ask net p body addr (ask_all before w).1).0 ≡ ok v
      → contains "error" v ≡ ok false
      → failover net p body (before ++ (addr ∷ after)) res w
        ≡ (v, (ask net p body addr (ask_all before w).1).1)
  failover_first_good [] addr after res w v h good e =
      failover-stops addr after res w (rw (good, is_good) (rw e)) ∙ rw good
  failover_first_good (b ∷ before) addr after res w v h good e =
      failover-continues b (before ++ (addr ∷ after)) res w h.0
      ∙ failover_first_good before addr after _ (ask net p body b w).1 v h.1 good e

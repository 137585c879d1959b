-- ===== src/Models/Actions/Order.antt =====
-- The actions that `ReceiptAction.build` of src/py_near/models.py makes of a list.
use py_near.Base.{ok, ◌≡◌, >>=-eq-ok, subst}
use py_near.Json.{Json, arr, Items, nil, cons}
use py_near.Errors.Exception.{Raises}
use py_near.Models.Receipt.{ReceiptAction, ReceiptActions, done, next}
use py_near.Models.Actions.{Codec, build, build_all, build_items}

module _ (codec : Codec) where
  -- Each value of the list is built into the action at its place.
  abbrev pub Built : Items → ReceiptActions → Type 0
  Built nil done = Unit
  Built nil (next a rest) = ⊥
  Built (cons v vs) done = ⊥
  Built (cons v vs) (next a rest) = (build codec v ≡ ok a) × Built vs rest

  build_items-cons :
      (v : Json) (vs : Items) (a : ReceiptAction) (rest actions : ReceiptActions)
      → build codec v ≡ ok a
      → Built vs rest
      → next a rest ≡ actions
      → Built (cons v vs) actions
  build_items-cons v vs a rest actions h k e = subst (Built (cons v vs)) e (h, k)

  ok-next :
      (a : ReceiptAction) (rest actions : ReceiptActions)
      → Path (Raises ReceiptActions) (ok (next a rest)) (ok actions)
      → next a rest ≡ actions
  ok-next a rest actions h = cc

  ok-done :
      (actions : ReceiptActions)
      → Path (Raises ReceiptActions) (ok done) (ok actions)
      → done ≡ actions
  ok-done actions h = cc

  build_items-Built :
      (vs : Items) (actions : ReceiptActions) → build_items codec vs ≡ ok actions → Built vs actions
  unfolding build
  build_items-Built nil actions h = subst (Built nil) (ok-done actions h) tt
  build_items-Built (cons v vs) actions h =
      let (a, e, h') = >>=-eq-ok (build codec v) _ h in
      let (rest, e', h'') = >>=-eq-ok (build_items codec vs) _ h' in
      build_items-cons v vs a rest actions e (build_items-Built vs rest e')
        (ok-next a rest actions h'')

  -- When the actions of a list are built, each value of the list is built, into the action at its
  -- place, and there are no others.
  pub build_all-Built :
      (vs : Items) (actions : ReceiptActions)
      → build_all codec (arr vs) ≡ ok actions
      → Built vs actions
  unfolding build
  build_all-Built vs actions h = build_items-Built vs actions h

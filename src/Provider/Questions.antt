-- ===== src/Provider/Questions.antt =====
-- Which requests `json_rpc` of src/py_near/providers.py posts.
pub mod Statuses
pub mod Submissions
pub mod Counted
pub mod Opening
use py_near.Base.{
  ℕ, String, Bool, true, false, ◌||◌, not, Option, none, some, List, [], ◌∷◌, ok, err, ok-injective,
  str_eq, ◌≡◌, refl, sym, ap, subst, ◌==◌, inl, if◌then◌else◌,
}
use py_near.Base.Method.{continued}
use py_near.Json.{Json, null, lookup}
use py_near.Python.{contains}
use py_near.Errors.Exception.{Raises}
use py_near.Provider.Network.{Network, Request}
use py_near.Provider.Address.{authorise}
use py_near.Provider.Recorded.{AsksFor, recorded, OnlyPosted, post-OnlyPosted, gather-OnlyPosted}
use py_near.Provider.Client.{JsonProvider, Io, request_to, ask, decode, rpc_body}
use py_near.Provider.Failover.{failover}
use py_near.Provider.Calls.{call_rpc_request}
use py_near.Provider.Rpc.{json_rpc}

pub request_to-body :
    (p : JsonProvider) (body : Json) (addr : String) (r : Request)
    → request_to p body addr ≡ ok r
    → r.body ≡ body
unfolding request_to
request_to-body p body addr r h = by_target (authorise addr) h
  where
    by_target :
        (a : Raises (Option String × String))
        → (elim a as (λ a. Raises Request) [
          | err e ↦ err e
          | ok (bearer, url) ↦ ok (record {
            url = url;
            bearer = some (elim bearer [ none ↦ "py-near" | some key ↦ key ]);
            referer = true;
            body = body;
            timeout = some p.timeout;
          })
        ])
          ≡ ok r
        → r.body ≡ body
    by_target (err e) h = cc
    by_target (ok (bearer, url)) h = ap (λ r. r.body) (sym (ok-injective h))

module _ (net : Network) (before : List Request) (P : Json → Type 0) where
  open net use {World}

  abbrev Posted : World × List Request → Type 0
  Posted = OnlyPosted net before P

  -- A method that posts nothing but bodies with the property.
  abbrev pub Posts : {A : Type 0} → (World × List Request → A × (World × List Request)) → Type 0
  Posts m = (w : World × List Request) → Posted w → Posted (m w).1

  ask-Posts :
      (p : JsonProvider) (body : Json) (addr : String)
      → P body
      → Posts (ask (recorded net) p body addr)
  unfolding ask
  ask-Posts p body addr q w asked =
      by_request (request_to p body addr) (λ r e. subst P (sym (request_to-body p body addr r e)) q)
    where
      by_request :
          (t : Raises Request)
          → ((r : Request) → t ≡ ok r → P r.body)
          → Posted
              (elim t as (λ t. Raises Json × (World × List Request)) [
                | err e ↦ (err e, w)
                | ok request ↦
                    let (out, w') = (recorded net).post request w in (decode (recorded net) out, w')
              ]).1
      by_request (err e) h = asked
      by_request (ok r) h = post-OnlyPosted net before P r w (h r refl) asked

  abbrev PostsFrom : JsonProvider → Json → List String → Type 0
  PostsFrom p body rest = (v : Json) → Posts (failover (recorded net) p body rest v)

  -- The rest of the loop over nodes, with what `"error" in res` gives for an answer.
  after_test :
      (p : JsonProvider) (body : Json) (rest : List String) (v : Json)
      → PostsFrom p body rest
      → (c : Raises Bool) (w : World × List Request) → Posted w
      → Posted
          (elim c as (λ c. Json × (World × List Request)) [
            | err e ↦ failover (recorded net) p body rest v w
            | ok b ↦ elim b as (λ b. Json × (World × List Request)) [
              | true ↦ failover (recorded net) p body rest v w
              | false ↦ (v, w)
            ]
          ]).1
  after_test p body rest v others (err e) w h = others v w h
  after_test p body rest v others (ok true) w h = others v w h
  after_test p body rest v others (ok false) w h = h

  pub after_answer :
      (p : JsonProvider) (body : Json) (rest : List String) (res : Json)
      → PostsFrom p body rest
      → (a : Raises Json) (w : World × List Request) → Posted w
      → Posted
          (elim a as (λ a. Json × (World × List Request)) [
            | err e ↦ failover (recorded net) p body rest res w
            | ok v ↦ elim (contains "error" v) as (λ c. Json × (World × List Request)) [
              | err e ↦ failover (recorded net) p body rest v w
              | ok b ↦ elim b as (λ b. Json × (World × List Request)) [
                | true ↦ failover (recorded net) p body rest v w
                | false ↦ (v, w)
              ]
            ]
          ]).1
  after_answer p body rest res others (err e) w h = others res w h
  after_answer p body rest res others (ok v) w h =
      after_test p body rest v others (contains "error" v) w h

  pub failover-Posts :
      (p : JsonProvider) (body : Json) (addrs : List String) (res : Json)
      → P body
      → Posts (failover (recorded net) p body addrs res)
  unfolding failover
  failover-Posts p body [] res q w asked = asked
  failover-Posts p body (addr ∷ rest) res q w asked =
      after_answer p body rest res (λ v. failover-Posts p body rest v q)
        (ask (recorded net) p body addr w).0 (ask (recorded net) p body addr w).1
        (ask-Posts p body addr q w asked)

  if-Posted :
      {A : Type 0} (b : Bool) (x y : A × (World × List Request))
      → Posted x.1
      → Posted y.1
      → Posted (if b then x else y).1
  if-Posted true x y h h' = h
  if-Posted false x y h h' = h'

  call_rpc_request-Posts :
      (p : JsonProvider) (method : String) (params : Json) (broadcast : Bool) (threshold : ℕ)
      → P (rpc_body method params)
      → Posts (call_rpc_request (recorded net) p method params broadcast threshold)
  unfolding call_rpc_request
  call_rpc_request-Posts p method params broadcast threshold q w asked =
      let body : Json = rpc_body method params in
      if-Posted (broadcast || not (threshold == 0)) _ _
        (gather-OnlyPosted net before P p.available_rpcs (request_to p body) w
          (λ addr r e. subst P (sym (request_to-body p body addr r e)) q) asked)
        (failover-Posts p body p.available_rpcs null q w asked)

  pub continued-Posted :
      {A B : Type 0} (k : A → Io (recorded net) B) (r : Raises A × (World × List Request))
      → ((a : A) → Posts (k a))
      → Posted r.1
      → Posted (continued k r).1
  continued-Posted k (ok a, w) h asked = h a w asked
  continued-Posted k (err e, w) h asked = asked

  pub json_rpc-Posts :
      (p : JsonProvider) (method : String) (params : Json) (broadcast : Bool) (threshold : ℕ)
      → P (rpc_body method params)
      → Posts (json_rpc (recorded net) p method params broadcast threshold)
  unfolding json_rpc
  json_rpc-Posts p method params broadcast threshold q w posted =
      continued-Posted _ (call_rpc_request (recorded net) p method params broadcast threshold w)
        (λ content w' h. h) (call_rpc_request-Posts p method params broadcast threshold q w posted)

module _ (net : Network) (before : List Request) where
  -- A method that posts nothing but questions.
  abbrev pub Asks :
      {A : Type 0} → (net.World × List Request → A × (net.World × List Request)) → Type 0
  Asks = Posts net before AsksFor

  -- `json_rpc` with the method `query`.
  pub json_rpc-Asks :
      (p : JsonProvider) (params : Json) (broadcast : Bool) (threshold : ℕ)
      → Asks (json_rpc (recorded net) p "query" params broadcast threshold)
  unfolding rpc_body lookup str_eq
  json_rpc-Asks p params broadcast threshold =
      json_rpc-Posts net before AsksFor p "query" params broadcast threshold (inl refl)

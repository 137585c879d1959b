-- ===== src/Provider/Questions/Opening.antt =====
-- What the calls that send a transaction of src/py_near/providers.py post at least, if there is a
-- first available address and it can be read.
pub mod Rpc
pub mod Sending
use mathlib.Core.List.{append_assoc}
use py_near.Base.{
  String, Bool, true, false, Option, none, some, List, [], ◌∷◌, ◌++◌, Memᴰ, Mem-append_left,
  Mem-append_right, ok, err, ◌≡◌, refl, sym, ap, ◌∙◌, if◌then◌else◌,
}
use py_near.Base.Method.{continued, handled, ◌>>=◌, try_except}
use py_near.Json.{Json}
use py_near.Errors.Exception.{Exception, Raises}
use py_near.Provider.Network.{Network, Request}
use py_near.Provider.Address.{authorise}
use py_near.Provider.Client.{JsonProvider, Io, request_to, ask}
use py_near.Provider.Failover.{failover}
use py_near.Provider.Recorded.{recorded, requests, OnlyPosted}
use py_near.Provider.Questions.{after_answer, failover-Posts}
use py_near.Provider.Questions.Submissions.{Posting}

-- The address to which a request goes first can be read.
unfoldable pub reachable : JsonProvider → Bool
reachable p = elim p.available_rpcs [
  | [] ↦ false
  | addr ∷ rest ↦ elim (authorise addr) [ err e ↦ false | ok target ↦ true ]
]

abbrev pub AnyBody : Json → Type 0
AnyBody body = Unit

module _ (net : Network) (body : Json) where
  open net use {World}

  -- A request with the body was posted since then.
  abbrev pub WasPosted : List Request → World × List Request → Type 0
  WasPosted before w =
      (new : List Request) × (w.1 ≡ new ++ before) × (r : Request) × Memᴰ r new × (r.body ≡ body)

  pub WasPosted-later :
      (before : List Request) (w w' : World × List Request)
      → WasPosted before w
      → OnlyPosted net w.1 AnyBody w'
      → WasPosted before w'
  WasPosted-later before w w' (new, e, r, m, b) (new', e', _) = (
    new' ++ new,
    e' ∙ ap (λ l. new' ++ l) e ∙ sym (append_assoc new' new before),
    r,
    Mem-append_right new' new m,
    b,
  )

  pub WasPosted-earlier :
      (before : List Request) (w w' : World × List Request)
      → OnlyPosted net before AnyBody w
      → WasPosted w.1 w'
      → WasPosted before w'
  WasPosted-earlier before w w' (new', e', _) (new, e, r, m, b) = (
    new ++ new',
    e ∙ ap (λ l. new ++ l) e' ∙ sym (append_assoc new new' before),
    r,
    Mem-append_left new new' m,
    b,
  )

  -- A method that posts the body.
  pub record Opening {A : Type 0} (m : Io (recorded net) A) : Type 0 where
    pub opens : (w : World × List Request) → WasPosted w.1 (m w).1

  -- What follows may post more.
  continued-later :
      {A B : Type 0} (before : List Request) (k : A → Io (recorded net) B)
      (r : Raises A × (World × List Request))
      → ((w : World × List Request) (a : A) → Posting net w.1 AnyBody (k a))
      → WasPosted before r.1
      → WasPosted before (continued k r).1
  continued-later before k (ok a, w) h posted =
      WasPosted-later before w (k a w).1 posted ((h w a).posts w ([], refl, tt))
  continued-later before k (err e, w) h posted = posted

  handled-later :
      {A : Type 0} (before : List Request) (k : Exception → Io (recorded net) A)
      (r : Raises A × (World × List Request))
      → ((w : World × List Request) (e : Exception) → Posting net w.1 AnyBody (k e))
      → WasPosted before r.1
      → WasPosted before (handled k r).1
  handled-later before k (ok a, w) h posted = posted
  handled-later before k (err e, w) h posted =
      WasPosted-later before w (k e w).1 posted ((h w e).posts w ([], refl, tt))

  pub bind-Opening :
      {A B : Type 0} (m : Io (recorded net) A) (k : A → Io (recorded net) B)
      → Opening m
      → ((w : World × List Request) (a : A) → Posting net w.1 AnyBody (k a))
      → Opening (m >>= k)
  bind-Opening m k h h' = record { opens = λ w. continued-later w.1 k (m w) h' (h.opens w) }

  pub try_except-Opening :
      {A : Type 0} (m : Io (recorded net) A) (k : Exception → Io (recorded net) A)
      → Opening m
      → ((w : World × List Request) (e : Exception) → Posting net w.1 AnyBody (k e))
      → Opening (try_except m k)
  try_except-Opening m k h h' = record { opens = λ w. handled-later w.1 k (m w) h' (h.opens w) }

  -- The request to the first address.
  pub first_request :
      (p : JsonProvider) (addr : String) (target : Option String × String)
      → authorise addr ≡ ok target
      → (r : Request) × (request_to p body addr ≡ ok r) × (r.body ≡ body)
  unfolding request_to
  first_request p addr target e =
      let made =
        ap
          (λ (a : Raises (Option String × String)). elim a as (λ a. Raises Request) [
            | err e ↦ err e
            | ok (bearer, url) ↦ ok (record {
              url = url;
              bearer = some (elim bearer [ none ↦ "py-near" | some key ↦ key ]);
              referer = true;
              body = body;
              timeout = some p.timeout;
            })
          ])
          e in
      (_, made, refl)

  ask-opens :
      (p : JsonProvider) (addr : String) (r : Request)
      → request_to p body addr ≡ ok r
      → r.body ≡ body
      → (w : World × List Request) → WasPosted w.1 (ask (recorded net) p body addr w).1
  unfolding ask
  ask-opens p addr r e b w = rw (e, ask) (r ∷ [], refl, r, Memᴰ.head refl, b)

  pub failover-opens :
      (p : JsonProvider) (addr : String) (rest : List String) (res : Json) (r : Request)
      → request_to p body addr ≡ ok r
      → r.body ≡ body
      → (w : World × List Request)
      → WasPosted w.1 (failover (recorded net) p body (addr ∷ rest) res w).1
  unfolding failover
  failover-opens p addr rest res r e b w =
      let asked = ask (recorded net) p body addr w in
      WasPosted-later w.1 asked.1 (failover (recorded net) p body (addr ∷ rest) res w).1
        (ask-opens p addr r e b w)
        (after_answer net asked.1.1 AnyBody p body rest res
          (λ v. failover-Posts net asked.1.1 AnyBody p body rest v tt) asked.0 asked.1
          ([], refl, tt))

  pub gather-opens :
      (f : String → Raises Request) (addr : String) (rest : List String) (r : Request)
      → f addr ≡ ok r
      → r.body ≡ body
      → (w : World × List Request) → WasPosted w.1 ((recorded net).gather (addr ∷ rest) f w).1
  unfolding requests
  gather-opens f addr rest r e b w =
      (requests f (addr ∷ rest), refl, r, rw (e, requests) (Memᴰ.head refl), b)

  pub if-opens :
      {A : Type 0} (before : List Request) (b : Bool) (x y : A × (World × List Request))
      → WasPosted before x.1
      → WasPosted before y.1
      → WasPosted before (if b then x else y).1
  if-opens before true x y h h' = h
  if-opens before false x y h h' = h'

-- ===== src/Provider/Recorded.antt =====
-- A network that remembers the requests that src/py_near/providers.py posts, and which of them are
-- questions that leave the chain as it is.
use mathlib.Core.List.{append_assoc}
use py_near.Base.{
  String, Option, none, some, List, [], ◌∷◌, ◌++◌, All, All-append, ok, err, ◌≡◌, refl, sym, ap,
  ◌∙◌, ◌⊎◌,
}
use py_near.Json.{Json, str, obj, lookup}
use py_near.Errors.Exception.{Raises}
use py_near.Provider.Network.{Network, Request}

-- The method that a request names.
abbrev pub method_of : Json → Option Json
method_of (obj fs) = lookup "method" fs
method_of _ = none

abbrev pub AsksFor : Json → Type 0
AsksFor body = (method_of body ≡ some (str "query")) ⊎ (method_of body ≡ some (str "status"))

-- The requests to a list of addresses.
unfoldable pub requests : (String → Raises Request) → List String → List Request
requests f [] = []
requests f (addr ∷ rest) = elim (f addr) [ ok r ↦ r ∷ requests f rest | err e ↦ requests f rest ]

-- The network with the requests that were posted so far, the last one first.
abbrev pub recorded : Network → Network
recorded net = record net {
  World = net.World × List Request;
  post = λ r w. let (out, w') = net.post r w.0 in (out, (w', r ∷ w.1));
  gather =
      λ addrs f w. let (sets, w') = net.gather addrs f w.0 in (sets, (w', requests f addrs ++ w.1));
  sleep = λ n w. (net.sleep n w.0, w.1);
  utcnow = λ w. net.utcnow w.0;
}

module _ (net : Network) (before : List Request) (P : Json → Type 0) where
  -- The bodies of all that was posted since then have the property.
  abbrev pub OnlyPosted : net.World × List Request → Type 0
  OnlyPosted w = (new : List Request) × (w.1 ≡ new ++ before) × All (λ r. P r.body) new

  pub post-OnlyPosted :
      (r : Request) (w : net.World × List Request)
      → P r.body
      → OnlyPosted w
      → OnlyPosted ((recorded net).post r w).1
  post-OnlyPosted r w q (new, e, asked) = (r ∷ new, ap (λ l. r ∷ l) e, (q, asked))

  requests-All :
      (f : String → Raises Request) (addrs : List String)
      → ((addr : String) (r : Request) → f addr ≡ ok r → P r.body)
      → All (λ r. P r.body) (requests f addrs)
  unfolding requests
  requests-All f [] h = tt
  requests-All f (addr ∷ rest) h = by_answer (f addr) (h addr) (requests-All f rest h)
    where
      by_answer :
          (a : Raises Request)
          → ((r : Request) → a ≡ ok r → P r.body)
          → All (λ r. P r.body) (requests f rest)
          → All (λ r. P r.body) (elim a [ ok r ↦ r ∷ requests f rest | err e ↦ requests f rest ])
      by_answer (ok r) k others = (k r refl, others)
      by_answer (err e) k others = others

  pub gather-OnlyPosted :
      (addrs : List String) (f : String → Raises Request) (w : net.World × List Request)
      → ((addr : String) (r : Request) → f addr ≡ ok r → P r.body)
      → OnlyPosted w
      → OnlyPosted ((recorded net).gather addrs f w).1
  gather-OnlyPosted addrs f w h (new, e, asked) = (
    requests f addrs ++ new,
    ap (λ l. requests f addrs ++ l) e ∙ sym (append_assoc (requests f addrs) new before),
    All-append (λ r. P r.body) (requests f addrs) new (requests-All f addrs h) asked,
  )

-- Since then nothing but questions was posted.
abbrev pub OnlyAsked : (net : Network) → List Request → net.World × List Request → Type 0
OnlyAsked net before = OnlyPosted net before AsksFor

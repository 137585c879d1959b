-- ===== src/Provider/Client.antt =====
-- `JsonProvider.__init__` and the inner function `f` of `call_rpc_request` of
-- src/py_near/providers.py.
use py_near.Base.{
  ℕ, String, ◌<>◌, Bool, true, none, some, List, [], ◌∷◌, ◌==◌, ok, err, or_raise, if◌then◌else◌,
}
use py_near.Base.Method.{Method}
use py_near.Text.Decimal.{decimal}
use py_near.Json.{Json, str, obj, end, field, single}
use py_near.Errors.Exception.{Exception, Raises, http_error, value_error}
use py_near.Provider.Address.{authorise}
use py_near.Provider.Network.{Network, Request, Outcome, replied, raised}

-- The `timeout` is the one given to `call_rpc_request`'s requests. The client object has no state
-- of its own here.
pub record JsonProvider : Type 0 where
  pub rpc_addresses : List String
  pub available_rpcs : List String
  pub allow_broadcast : Bool
  pub timeout : ℕ

-- The address argument: a host with a port, a list, or one address.
pub data RpcAddr : Type 0 where
  tuple : String → String → RpcAddr
  addresses : List String → RpcAddr
  address : String → RpcAddr

unfoldable pub rpc_list : RpcAddr → List String
rpc_list (tuple host port) = ("http://" <> (host <> (":" <> port))) ∷ []
rpc_list (addresses as') = as'
rpc_list (address a) = a ∷ []

-- `JsonProvider.__init__`
unfoldable pub new_provider : RpcAddr → Bool → ℕ → JsonProvider
unfolding rpc_list
new_provider rpc_addr allow_broadcast timeout = record {
  rpc_addresses = rpc_list rpc_addr;
  available_rpcs = rpc_list rpc_addr;
  allow_broadcast = allow_broadcast;
  timeout = timeout;
}

-- The content that stands for a response with another status than 200.
unfoldable pub rpc_error : ℕ → String → Json
unfolding decimal
rpc_error status text = single "error" (
    obj (
      field "cause"
        (obj (
          field "name" (str "RPC_ERROR")
            (field "message" (str ("Status: " <> decimal status)) end)))
        (field "data" (str text) end)))

-- `j`
unfoldable pub rpc_body : String → Json → Json
rpc_body method params = obj (
    field "method" (str method)
      (field "params" params (field "id" (str "dontcare") (field "jsonrpc" (str "2.0") end))))

-- The request of `f` to an address.
unfoldable pub request_to : JsonProvider → Json → String → Raises Request
request_to p body addr = elim (authorise addr) [
  | err e ↦ err e
  | ok (bearer, url) ↦ ok (record {
    url = url;
    bearer = some (elim bearer [ none ↦ "py-near" | some key ↦ key ]);
    referer = true;
    body = body;
    timeout = some p.timeout;
  })
]

module _ (net : Network) where
  open net use {World, post, gather, loads, digest}

  abbrev pub Io : Type 0 → Type 0
  Io = Method World Exception

  -- `JsonProvider.shutdown` does nothing.
  unfoldable pub shutdown : JsonProvider → Io (Unit {0})
  shutdown p w = (ok tt, w)

  -- The end of `f`, from the response on.
  unfoldable pub decode : Outcome → Raises Json
  decode (replied status text) =
      if status == 200 then or_raise (loads text) value_error else ok (rpc_error status text)
  decode raised = err http_error

  -- `f(rpc_call_addr)` on its own.
  unfoldable pub ask : JsonProvider → Json → String → Io Json
  ask p body addr w = elim (request_to p body addr) [
    | err e ↦ (err e, w)
    | ok request ↦ let (out, w') = post request w in (decode out, w')
  ]

  -- `f(rpc_call_addr)` as a task that has ended with the outcome of its POST.
  unfoldable pub finished : JsonProvider → Json → String × Outcome → Raises Json
  finished p body (addr, out) = elim (request_to p body addr) [
    | err e ↦ err e
    | ok request ↦ decode out
  ]

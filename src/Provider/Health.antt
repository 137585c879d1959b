-- ===== src/Provider/Health.antt =====
-- `_check_available_rpcs` and `get_status` of src/py_near/providers.py.
pub mod Laws
pub mod Zone
use py_near.Base.{
  ℕ, ◌+◌, String, Bool, true, false, not, Option, none, some, List, [], ◌∷◌, ok, err, ◌>>=◌,
  or_raise, ◌==◌, ltb, if◌then◌else◌,
}
use py_near.Json.{Json, num, str, obj, end, field, single, truthy}
use py_near.Python.{get_item}
use py_near.Errors.Exception.{Raises, http_error, value_error, type_error, rpc_not_available}
use py_near.Provider.Address.{authorise}
use py_near.Utils.{timestamp}
use py_near.Provider.Network.{Network, Request, Outcome, replied, raised}
use py_near.Provider.Client.{JsonProvider, Io}

abbrev pub status_body : Json
status_body = obj (
    field "jsonrpc" (str "2.0") (
      field "method" (str "status")
        (field "params" (single "finality" (str "final")) (field "id" (num 1) end))))

-- Sixty seconds in microseconds.
abbrev pub max_lag : ℕ
max_lag = 60_000_000

module _ (net : Network) where
  open net use {World, post, loads, fromisoformat}

  -- Whether the answer of a node to `status` keeps it: a node that is syncing may be a minute
  -- behind the clock.
  unfoldable pub is_available : Outcome → World → Raises Bool
  is_available raised w = err http_error
  is_available (replied status text) w =
      if status == 200
      then (do
        content ← or_raise (loads text) value_error
        result ← get_item content "result"
        sync_info ← get_item result "sync_info"
        syncing ← get_item sync_info "syncing"
        if truthy syncing
            then (do
              latest ← get_item sync_info "latest_block_time"
              elim latest [
                | str time ↦ do
                  last_block_ts ← or_raise (fromisoformat time) value_error
                  ok (not (ltb (last_block_ts + max_lag) (timestamp net w)))
                | _ ↦ err type_error
              ])
            else ok true)
      else ok false

  -- The body of the loop for one address, up to its `except`.
  unfoldable pub probe : String → Io net Bool
  probe addr w = elim (authorise addr) [
    | err e ↦ (err e, w)
    | ok (bearer, url) ↦
        let (out, w') =
          post
            (record {
              url = url;
              bearer = some (elim bearer [ none ↦ "py-near" | some key ↦ key ]);
              referer = true;
              body = status_body;
              timeout = none;
            })
            w in
        (is_available out w', w')
  ]

  -- A `False` and an exception both leave the address out.
  abbrev pub passed : Raises Bool → Bool
  passed (ok b) = b
  passed (err e) = false

  unfoldable pub check_all : List String → World → List String × World
  check_all [] w = ([], w)
  check_all (addr ∷ rest) w =
      let (answer, w') = probe addr w in
      let (kept, w'') = check_all rest w' in (if passed answer then addr ∷ kept else kept, w'')

  -- `_check_available_rpcs`
  unfoldable pub check_available_rpcs : JsonProvider → World → JsonProvider × World
  unfolding check_all
  check_available_rpcs p w =
      let (available, w') = check_all p.rpc_addresses w in
      (record p { available_rpcs = available }, w')

  -- The request of `get_status`: an address with a key is asked without the `Referer` header.
  abbrev pub status_request : Option String × String → Request
  status_request (bearer, url) = record {
    url = url;
    bearer = bearer;
    referer = elim bearer [ none ↦ true | some _ ↦ false ];
    body = status_body;
    timeout = none;
  }

  -- `json.loads(r.text)["result"]`, if the status is 200. With another status the body of the loop
  -- ends without an exception; both leave the node behind.
  unfoldable pub status_result : Outcome → Option Json
  status_result raised = none
  status_result (replied status text) =
      if status == 200
      then elim (do content ← or_raise (loads text) value_error; get_item content "result") [
        | ok v ↦ some v
        | err e ↦ none
      ]
      else none

  -- The answer of one address to `get_status`, if it gives one.
  unfoldable pub ask_status : String → World → Option Json × World
  ask_status addr w = elim (authorise addr) [
    | err e ↦ (none, w)
    | ok target ↦ let (out, w') = post (status_request target) w in (status_result out, w')
  ]

  unfoldable pub status_from : List String → Io net Json
  status_from [] w = (err rpc_not_available, w)
  status_from (addr ∷ rest) w =
      let (answer, w') = ask_status addr w in
      elim answer [ some v ↦ (ok v, w') | none ↦ status_from rest w' ]

  -- `get_status`
  unfoldable pub get_status : JsonProvider → Io net Json
  unfolding status_from
  get_status p = status_from p.available_rpcs

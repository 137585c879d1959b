-- ===== src/Provider/Rpc/Outcomes.antt =====
-- What `json_rpc` of src/py_near/providers.py makes of the answers of the nodes.
use py_near.Base.{
  ℕ, String, ◌<>◌, Bool, true, false, some, List, ◌∷◌, ◌++◌, ok, err, ◌≡◌, refl, ◌∙◌, ◌==◌, ap,
  str_eq,
}
use py_near.Base.Method.{continued, lift}
use py_near.Json.{Json, null, str, obj, Fields, end, field, lookup, truthy}
use py_near.Python.{contains, get_item}
use py_near.Errors.Classes.{internal_error, find_class}
use py_near.Errors.Exception.{ProviderError, provider}
use py_near.Provider.Answers.{NoneGood}
use py_near.Provider.Network.{Network, replied}
use py_near.Provider.Client.{JsonProvider, ask, decode, rpc_error, rpc_body}
use py_near.Text.Decimal.{decimal}
use py_near.Provider.Failover.{failover}
use py_near.Provider.Failover.Order.{ask_all, failover_first_good}
use py_near.Provider.Calls.{call_rpc_request}
use py_near.Provider.Response.{get_error_from_response}
use py_near.Provider.Response.Codes.{coded, error_of_code, no_error}
use py_near.Provider.Rpc.{result_of, json_rpc}

module _ (net : Network) where
  open net use {World, loads}

  -- A true content without the key `error` gives its result.
  pub result_of_good :
      (content : Json)
      → truthy content ≡ true
      → contains "error" content ≡ ok false
      → result_of net content ≡ get_item content "result"
  unfolding result_of
  result_of_good content t h = rw (t, result_of) (rw (no_error loads content h))

  result_of_error :
      (fs : Fields) (key : String) (v : Json) (e : ProviderError)
      → get_error_from_response loads (obj (field key v fs)) ≡ ok (some e)
      → result_of net (obj (field key v fs)) ≡ err (provider e)
  unfolding result_of truthy
  result_of_error fs key v e h = rw (h, result_of)

  -- A response with another status than 200 ends as an `InternalError` that holds the text.
  pub status_error :
      (status : ℕ) (text : String)
      → (status == 200) ≡ false
      → (content : Json) × (e : ProviderError) × (decode net (replied status text) ≡ ok content)
        × (result_of net content ≡ err (provider e))
        × (e.class ≡ internal_error)
        × (get_item e.error_json "data" ≡ ok (str text))
  unfolding decode rpc_error lookup get_item find_class str_eq
  status_error status text h =
      let cause =
        field "name" (str "RPC_ERROR") (field "message" (str ("Status: " <> decimal status)) end) in
      let error = field "cause" (obj cause) (field "data" (str text) end) in
      (
        rpc_error status text,
        coded "RPC_ERROR" (obj error),
        rw h,
        result_of_error end "error" (obj error) (coded "RPC_ERROR" (obj error)) (
            error_of_code loads (field "error" (obj error) end) error cause "RPC_ERROR" (str text)
              refl refl refl refl refl),
        refl,
        refl,
      )

  call_rpc_request-failover :
      (p : JsonProvider) (method : String) (params : Json) (w : World)
      → call_rpc_request net p method params false 0 w ≡ (
          let (res, w') = failover net p (rpc_body method params) p.available_rpcs null w in
          (ok res, w'))
  unfolding call_rpc_request
  call_rpc_request-failover p method params w = refl

  -- The answer of the nodes goes through `result_of`.
  pub json_rpc-of_call :
      (p : JsonProvider) (method : String) (params : Json) (broadcast : Bool) (threshold : ℕ)
      (w w' : World) (content : Json)
      → call_rpc_request net p method params broadcast threshold w ≡ (ok content, w')
      → json_rpc net p method params broadcast threshold w ≡ (result_of net content, w')
  unfolding json_rpc
  json_rpc-of_call p method params broadcast threshold w w' content h =
      ap (continued (λ c. lift {S = World} (result_of net c))) h

  -- Of the available nodes the first that answers without an error decides: its result is
  -- returned, whatever the nodes before it did, and the nodes behind it are not asked.
  pub json_rpc_first_good :
      (p : JsonProvider) (method : String) (params : Json) (before : List String) (addr : String)
      (after : List String) (w : World) (content result : Json)
      → let body = rpc_body method params in
        p.available_rpcs ≡ before ++ (addr ∷ after)
        → NoneGood (ask_all net p body before w).0
        → (ask net p body addr (ask_all net p body before w).1).0 ≡ ok content
        → truthy content ≡ true
        → contains "error" content ≡ ok false
        → get_item content "result" ≡ ok result
        → json_rpc net p method params false 0 w
          ≡ (ok result, (ask net p body addr (ask_all net p body before w).1).1)
  json_rpc_first_good p method params before addr after w content result e h a t g r =
      let body = rpc_body method params in
      let w' = (ask net p body addr (ask_all net p body before w).1).1 in
      let found : failover net p body p.available_rpcs null w ≡ (content, w') =
        ap (λ l. failover net p body l null w) e
        ∙ failover_first_good net p body before addr after null w content h a g in
      let called : call_rpc_request net p method params false 0 w ≡ (ok content, w') =
        call_rpc_request-failover p method params w ∙ rw found in
      json_rpc-of_call p method params false 0 w w' content called
      ∙ ap (λ x. (x, w')) (result_of_good content t g ∙ r)

-- ===== src/Tests/Views.antt =====
-- A run of the theorem on what a view function returns (src/py_near/account.py).
use py_near.Base.{none, some, [], ok, ◌≡◌, refl, arith, str_eq}
use py_near.Json.{Json, null, num, str, arr, obj, field, end, single}
use py_near.Json
use py_near.Provider.Network.{Network}
use py_near.Models.Keys.{ViewFunctionResult}
use py_near.Provider.Queries.{view_query}
use py_near.Provider.Rpc.Agreed.{Agreed}
use py_near.Transactions.{Primitives}
use py_near.Account.State.{State}
use py_near.Account.Answers.{viewed}
use py_near.Account.Chain.{view_function}
use py_near.Account.Views.{view_function-Agreed}
use py_near.Tests.Fixtures.{made, crowd, prim, two_nodes}

-- The answer of a view function, from every node.
abbrev view_answer : Json
view_answer = single "result" (
    obj (
      field "result" (arr Json.nil)
        (field "logs" (arr Json.nil) (field "block_height" (num 9) end))))

abbrev viewers : Network
viewers = record crowd { loads = λ s. some view_answer }

abbrev reader : Primitives
reader = record prim { loads_chars = λ chars. some (num 3) }

abbrev seen : ViewFunctionResult
seen = record { block_hash = str ""; block_height = num 9; logs = arr Json.nil; result = num 3 }

abbrev asker : State viewers
asker = record { account = record made { provider = two_nodes }; nonces = []; world = [] }

view_function-Agreed_example :
    (result : Json) × (viewed reader result ≡ ok seen)
    × Agreed viewers two_nodes "query"
        (obj (view_query "ft.near" "ft_balance_of" "base64" "optimistic" none))
        2
        []
        result
unfolding view_function py_near.Provider.Queries.view_call py_near.Provider.Rpc.json_rpc
    py_near.Provider.Calls.call_rpc_request py_near.Provider.Address.authorise py_near.Text.has
    py_near.Provider.Client.decode py_near.Python.contains str_eq
    py_near.Provider.Majority.most_frequent_by_hash Json.truthy
    py_near.Provider.Response.get_error_from_response py_near.Python.get_item viewed
    py_near.Python.iterate py_near.Models.Keys.view_function_result
view_function-Agreed_example =
    view_function-Agreed reader viewers "ft.near" "ft_balance_of" null none 2 asker seen
      (omega arith) refl

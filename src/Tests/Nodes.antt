-- ===== src/Tests/Nodes.antt =====
-- Runs of the theorems on how src/py_near/providers.py asks its nodes.
use py_near.Base.{◌<>◌, false, some, List, [], ◌∷◌, ok, err, ◌≡◌, refl, arith, str_eq}
use py_near.Json.{Json, null, num, truthy, lookup, has_key}
use py_near.Python.{contains, get_item}
use py_near.Errors.Exception.{Raises, http_error}
use py_near.Provider.Network.{replied, raised, Outcome}
use py_near.Provider.Address.{authorise, with_key, authorise-with_key}
use py_near.Provider.Majority.{most_frequent_by_hash}
use py_near.Provider.Client.{ask, decode, request_to}
use py_near.Provider.Broadcast.{broadcast_loop, at_start}
use py_near.Provider.Broadcast.Threshold.{joined, Verdict, all_recorded, threshold_exact}
use py_near.Provider.Broadcast.Election.{elected, outcome, broadcast_loop-elected}
use mathlib.Core.Quot
use py_near.Provider.Broadcast.First.{broadcast_first}
use py_near.Provider.Rpc.{json_rpc}
use py_near.Provider.Rpc.Outcomes.{json_rpc_first_good}
use py_near.Text.{has, begins}
use py_near.Provider.Health.{check_available_rpcs}
use py_near.Provider.Health.Laws.{Passing, check_available_rpcs-Passing}
use py_near.Provider.Rpc.Agreed.{Agreed, json_rpc-Agreed}
use py_near.Tests.Fixtures.{crowd, net, two_nodes, good_answer}

abbrev waves : List (List (Raises Json))
waves = (ok (num 1) ∷ err http_error ∷ []) ∷ (ok (num 2) ∷ ok (num 1) ∷ []) ∷ []

threshold_exact_example : Verdict net 2 (all_recorded waves) (broadcast_loop net 2 waves at_start)
threshold_exact_example = threshold_exact net 2 waves (omega arith)

broadcast_first_example : broadcast_loop net 0 waves at_start ≡ ok (num 1)
unfolding contains
broadcast_first_example = broadcast_first net waves

-- The first node does not answer, the second does.
abbrev script : List Outcome
script = raised ∷ replied 200 "good" ∷ []

check_available_rpcs-Passing_example :
    let (p', w') = check_available_rpcs net two_nodes script in
    Passing net two_nodes.rpc_addresses script p'.available_rpcs w'
    × (p'.rpc_addresses ≡ two_nodes.rpc_addresses)
check_available_rpcs-Passing_example = check_available_rpcs-Passing net two_nodes script

authorise-with_key_example :
    authorise (with_key "https:" "token" "rpc.near.org")
    ≡ ok (some "token", "https:" <> ("//" <> "rpc.near.org"))
authorise-with_key_example =
    authorise-with_key "https:" "token" "rpc.near.org"
      (refl, (refl, (refl, (refl, (refl, (refl, tt))))))
      (refl, (refl, (refl, (refl, (refl, (refl, tt)))))) (refl, (refl, (refl, (refl, (refl, tt)))))
      (refl, (refl, (refl, (refl, (refl, tt)))))
      (
        refl,
        (refl, (refl, (refl, (refl, (refl, (refl, (refl, (refl, (refl, (refl, (refl, tt))))))))))),
      )

json_rpc_first_good_example : json_rpc net two_nodes "block" null false 0 script ≡ (ok (num 7), [])
unfolding ask decode request_to authorise contains lookup has begins has_key get_item str_eq truthy
json_rpc_first_good_example =
    json_rpc_first_good net two_nodes "block" null ("http://a" ∷ []) "http://b" [] script
      good_answer (num 7) refl (refl, tt) refl refl refl refl

json_rpc-Agreed_example : Agreed crowd two_nodes "block" null 2 [] (num 7)
unfolding json_rpc py_near.Provider.Calls.call_rpc_request authorise has decode str_eq contains
    most_frequent_by_hash truthy py_near.Provider.Response.get_error_from_response get_item
json_rpc-Agreed_example =
    json_rpc-Agreed crowd two_nodes "block" null false 2 [] (num 7) (omega arith) refl

broadcast_loop-elected_example :
    outcome net (broadcast_loop net 3 waves at_start) ≡ elected net 3 (Quot.mk (joined waves))
broadcast_loop-elected_example = broadcast_loop-elected net 3 waves (omega arith) (omega arith)

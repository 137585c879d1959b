-- ===== src/Provider/Questions/Opening/Sending.antt =====
-- The calls that send a transaction of src/py_near/providers.py post their submission.
use py_near.Base.{String, Bool, true, false, Option, some, ◌≡◌}
use py_near.Base.Method.{lift, pure, ◌>>=◌}
use py_near.Json.{Json, str, obj, field, end}
use py_near.Errors.Classes.{rpc_timeout_error, invalid_nonce}
use py_near.Errors.Exception.{caught_by}
use py_near.Models.Results.{transaction_result}
use py_near.Provider.Network.{Network}
use py_near.Provider.Client.{JsonProvider}
use py_near.Provider.Rpc.{one, given, json_rpc, send_tx, send_tx_included, send_tx_and_wait}
use py_near.Provider.Recorded.{recorded}
use py_near.Provider.Questions.Submissions.{
  submission, quiet, bind-Posting, if-Posting, timed_out-Posting,
}
use py_near.Provider.Questions.Opening.{
  reachable, AnyBody, Opening, bind-Opening, try_except-Opening,
}
use py_near.Provider.Questions.Opening.Rpc.{json_rpc-Opening}

module _ (net : Network) (p : JsonProvider) (tx : String) where
  pub send_tx-Opening :
      reachable p ≡ true → Opening net (submission true false tx) (send_tx (recorded net) p tx)
  unfolding send_tx
  send_tx-Opening h =
      json_rpc-Opening net p "broadcast_tx_async" (one (str tx)) p.allow_broadcast 0 h

  pub send_tx_included-Opening :
      (nowait : Bool)
      → reachable p ≡ true
      → Opening net (submission nowait true tx) (send_tx_included (recorded net) p tx)
  unfolding send_tx_included
  send_tx_included-Opening nowait h =
      let params : Json =
        obj (field "signed_tx_base64" (str tx) (field "wait_until" (str "INCLUDED") end)) in
      try_except-Opening net (submission nowait true tx)
        (json_rpc (recorded net) p "send_tx" params p.allow_broadcast 0) _
        (json_rpc-Opening net p "send_tx" params p.allow_broadcast 0 h)
        (λ w e.
          if-Posting net w.1 AnyBody (caught_by invalid_nonce e) _ _ (quiet net w.1 AnyBody _)
            (quiet net w.1 AnyBody _))

  pub send_tx_and_wait-Opening :
      (trx_hash receiver_id : Option String)
      → reachable p ≡ true
      → Opening net
          (submission false false tx)
          (send_tx_and_wait (recorded net) p tx trx_hash receiver_id)
  unfolding send_tx_and_wait
  send_tx_and_wait-Opening trx_hash receiver_id h =
      let commit =
        json_rpc (recorded net) p "broadcast_tx_commit" (one (str tx)) p.allow_broadcast 0 in
      try_except-Opening net (submission false false tx)
        (commit >>= λ res. lift (transaction_result net.codec res) >>= λ result. pure (some result))
        _
        (bind-Opening net (submission false false tx) commit _
          (json_rpc-Opening net p "broadcast_tx_commit" (one (str tx)) p.allow_broadcast 0 h)
          (λ w res.
            bind-Posting net w.1 AnyBody (lift (transaction_result net.codec res)) _
              (quiet net w.1 AnyBody _) (λ a. quiet net w.1 AnyBody _)))
        (λ w e.
          if-Posting net w.1 AnyBody (caught_by rpc_timeout_error e) _ _
            (timed_out-Posting net w.1 AnyBody p (given receiver_id) (given trx_hash)
              (λ hash receiver. tt))
            (quiet net w.1 AnyBody _))

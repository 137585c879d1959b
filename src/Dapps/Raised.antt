-- ===== src/Dapps/Raised.antt =====
-- What the calls of the clients of src/py_near/dapps raise, and how their `except` clauses change it.
use py_near.Base.{Option, none, some, Result, ok, err, ◌>>=◌, or_raise, if◌then◌else◌}
use py_near.Json.{Json, lookup}
use py_near.Python.{get_item}
use py_near.Errors.Exception.{Raises, attribute_error}
use py_near.Errors.Kinds.{KindError, is_function_call_error}
use py_near.Provider.Network.{Network}
use py_near.Account.State.{State}
use py_near.Account.Submit.{Sent, Failure}

-- The classes of src/py_near/dapps/ft/exceptions.py; `NotEnoughBalance` is raised with its cause.
pub data FtError : Type 0 where
  not_enough_balance : KindError → FtError
  not_registered_error : FtError

-- Those of src/py_near/dapps/staking/exceptions.py; the second is raised nowhere.
pub data StakingError : Type 0 where
  not_enough_balance : KindError → StakingError
  not_registered_error : StakingError

-- An exception of the account's call, one of exceptions.py, or one of the clients.
pub data Raised : Type 0 where
  failed : Failure → Raised
  kind_error : KindError → Raised
  ft_error : FtError → Raised
  staking_error : StakingError → Raised

-- What the body of an `except` clause raises: the exception that it means to, or one on the way.
abbrev pub or_failed : Raises Raised → Raised
or_failed (ok r) = r
or_failed (err e) = failed (record { exception = e; trx_hash = none })

-- `e.error["ExecutionError"]`
unfoldable pub execution_error_of : KindError → Raises Json
execution_error_of e = do
  error ← or_raise (lookup "error" e.attributes) attribute_error
  get_item error "ExecutionError"

-- An `except FunctionCallError` clause with the given body.
abbrev pub except_function_call_error : (KindError → Raised) → Raised → Raised
except_function_call_error body (kind_error e) =
    if is_function_call_error e.class then body e else kind_error e
except_function_call_error body (failed f) = failed f
except_function_call_error body (ft_error e) = ft_error e
except_function_call_error body (staking_error e) = staking_error e

module _ (net : Network) where
  abbrev pub Ending : Type 0
  Ending = Option (Result Raised Sent × State net)

  abbrev pub ClientCall : Type 0
  ClientCall = State net → Ending

  -- What is raised, changed by an `except` clause. The state is as the call left it.
  abbrev pub caught : (Raised → Raised) → Ending → Ending
  caught f none = none
  caught f (some (ok sent, s)) = some (ok sent, s)
  caught f (some (err r, s)) = some (err (f r), s)

  -- The end of a call of the account.
  abbrev pub ended : Option (Result Failure Sent × State net) → Ending
  ended none = none
  ended (some (ok sent, s)) = some (ok sent, s)
  ended (some (err f, s)) = some (err (failed f), s)

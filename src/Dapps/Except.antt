-- ===== src/Dapps/Except.antt =====
-- The bodies of the `except FunctionCallError` clauses in src/py_near/dapps/ft/async_client.py and
-- src/py_near/dapps/staking/async_client.py.
use py_near.Base.{ok, err, ◌>>=◌, if◌then◌else◌}
use py_near.Python.{contains}
use py_near.Errors.Exception.{type_error}
use py_near.Errors.Kinds.{KindError}
use py_near.Dapps.Raised.{
  Raised, FtError, not_registered_error, StakingError, ft_error, staking_error, kind_error,
  or_failed, execution_error_of,
}

-- In `transfer` of the client of fungible tokens.
unfoldable pub except_transfer : KindError → Raised
unfolding execution_error_of
except_transfer e = or_failed (do
  failure ← execution_error_of e
  unregistered ← contains "The account is not registered" failure
  if unregistered then ok (ft_error not_registered_error) else (do
    poor ← contains "The account doesn't have enough balance" failure
    ok (if poor then ft_error (FtError.not_enough_balance e) else kind_error e)))

-- In `transfer` of the client of staking.
unfoldable pub except_staking_transfer : KindError → Raised
unfolding execution_error_of
except_staking_transfer e = or_failed (do
  failure ← execution_error_of e
  poor ← contains "The account doesn't have enough balance" failure
  ok (if poor then staking_error (StakingError.not_enough_balance e) else kind_error e))

-- In `unstake`, which looks into the exception itself; that is no container.
unfoldable pub except_unstake : KindError → Raised
except_unstake e = or_failed (err type_error)

-- ===== src/Constants.antt =====
-- src/py_near/constants.py.
use py_near.Base.{ℕ, ◌*◌, String}

-- Seconds.
abbrev pub timeout_wait_rpc : ℕ
timeout_wait_rpc = 600

abbrev pub tgas : ℕ
tgas = 1_000_000_000_000

abbrev pub default_attached_gas : ℕ
default_attached_gas = 200 * tgas

abbrev pub allowance : ℕ
allowance = 25_000_000_000_000_000_000_000

abbrev pub rpc_mainnet : String
rpc_mainnet = "https://rpc.mainnet.near.org"

-- ===== src/Utils.antt =====
-- The clock of src/py_near/utils.py.
use py_near.Base.{ℕ}
use py_near.Provider.Network.{Network}

module _ (net : Network) where
  open net use {World, as_local}

  abbrev pub utcnow : World → ℕ
  utcnow w = net.utcnow w

  -- `utcnow()` has no zone, so that its timestamp is that of the same local time.
  abbrev pub timestamp : World → ℕ
  timestamp w = as_local (utcnow w)

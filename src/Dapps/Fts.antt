-- ===== src/Dapps/Fts.antt =====
-- The tokens of src/py_near/dapps/fts.py.
use py_near.Dapps.Views.{FtModel}

abbrev pub usdt_e : FtModel
usdt_e = record {
  contract_id = "dac17f958d2ee523a2206206994597c13d831ec7.factory.bridge.near";
  decimal = 6;
}

abbrev pub usdc_e : FtModel
usdc_e = record {
  contract_id = "a0b86991c6218b36c1d19d4a2e9eb0ce3606eb48.factory.bridge.near";
  decimal = 6;
}

abbrev pub dai_e : FtModel
dai_e = record {
  contract_id = "6b175474e89094c44da98b954eedeac495271d0f.factory.bridge.near";
  decimal = 18;
}

abbrev pub aurora : FtModel
aurora = record {
  contract_id = "aaaaaa20d9e0e2461697782ef11675f668207961.factory.bridge.near";
  decimal = 18;
}

abbrev pub wbtc_e : FtModel
wbtc_e = record {
  contract_id = "2260fac5e5542a773aa44fbcfedf7c193bc2c599.factory.bridge.near";
  decimal = 8;
}

abbrev pub eth : FtModel
eth = record { contract_id = "aurora"; decimal = 18 }

abbrev pub st_here : FtModel
st_here = record { contract_id = "storage.herewallet.near"; decimal = 24 }

abbrev pub st_near : FtModel
st_near = record { contract_id = "meta-pool.near"; decimal = 24 }

abbrev pub linear : FtModel
linear = record { contract_id = "linear-protocol.near"; decimal = 24 }

abbrev pub w_near : FtModel
w_near = record { contract_id = "wrap.near"; decimal = 24 }

abbrev pub meta : FtModel
meta = record { contract_id = "meta-token.near"; decimal = 24 }

abbrev pub usdt : FtModel
usdt = record { contract_id = "usdt.tether-token.near"; decimal = 6 }

abbrev pub usdc : FtModel
usdc = record {
  contract_id = "17208628f84f5d6ad33f0da3bbbeb27ffcb398eac501a31bd6ad2011e36133a1";
  decimal = 6;
}

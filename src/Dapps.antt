-- ===== src/Dapps.antt =====
-- src/py_near/dapps: the clients of fungible tokens, of staking and of KeyPom.
pub mod Views
pub mod Raised
pub mod Except
pub mod Ft
pub mod Staking
pub mod Fts
pub mod Requests
pub mod Keypom

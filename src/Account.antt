-- ===== src/Account.antt =====
-- src/py_near/account.py: `Account`, the keys of one account and the calls made with them.
pub mod State
pub mod Answers
pub mod Chain
pub mod Start
pub mod Sign
pub mod Submit
pub mod Effects
pub mod Freshness
pub mod Kept
pub mod Queue
pub mod Calls
pub mod Delegate
pub mod Nonces
pub mod Race
pub mod Outcome
pub mod Signed
pub mod Pool
pub mod Views
pub mod Answered
pub mod Asked
pub mod History

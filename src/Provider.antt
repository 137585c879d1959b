-- ===== src/Provider.antt =====
-- src/py_near/providers.py: `JsonProvider`, the client of one or more RPC nodes.
pub mod Address
pub mod Network
pub mod Recorded
pub mod Majority
pub mod Answers
pub mod Client
pub mod Failover
pub mod Broadcast
pub mod Calls
pub mod Response
pub mod Rpc
pub mod Health
pub mod Queries
pub mod Questions

-- ===== src/Tests.antt =====
-- Runs of the theorems at concrete inputs.
mod Fixtures
mod Nodes
mod Waits
mod Signing
mod Values
mod Encoding
mod Delegates
mod Delegating
mod History
mod Requests
mod Asked
mod Failures
mod Announced
mod Views

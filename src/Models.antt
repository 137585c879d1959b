-- ===== src/Models.antt =====
-- src/py_near/models.py: the values built from what the node answers.
pub mod Types
pub mod Keys
pub mod Receipt
pub mod Actions
pub mod Results
pub mod Delegate

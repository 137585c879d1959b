-- ===== src/Errors.antt =====
-- The exceptions: src/py_near/exceptions/provider.py in `Classes` and `Build`,
-- src/py_near/exceptions/exceptions.py in `Kinds`, and every value that is raised in `Exception`.
pub mod Classes
pub mod Exception
pub mod Build
pub mod Kinds

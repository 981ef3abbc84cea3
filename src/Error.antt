-- ===== src/Error.antt =====
-- error.rs and error/: the error enums, their conversions, and the HTTP response to an API error. An
-- error stands for the current context of its `ContainerError` or `Report`: the chain of causes that
-- is kept for the log is not modelled.
pub mod Types
pub mod Remote
pub mod Configuration
pub mod FromStorage
pub mod FromCrypto
pub mod ToApi
pub mod KeyManager
pub mod Classify
pub mod Response
pub mod Laws

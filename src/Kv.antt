-- ===== src/Kv.antt =====
-- storage/kv.rs and storage/kv/: the write-through Redis layer.
pub mod Errors
pub mod Keys
pub mod Query
pub mod Wrapper
pub mod Redis
pub mod Resource
pub mod Impls
pub mod Memory
pub mod Tests

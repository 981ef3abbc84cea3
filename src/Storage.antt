-- ===== src/Storage.antt =====
-- storage.rs and storage/: the rows, the storage scheme and the runtime switches, and the world that
-- the storage code reads and changes.
pub mod Scheme
pub mod Rows
pub mod Vaults
pub mod World
pub mod Replica
pub mod Merchants

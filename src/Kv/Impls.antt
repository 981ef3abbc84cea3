-- ===== src/Kv/Impls.antt =====
-- storage/kv/impls.rs and storage/kv/impls: the resources. What diesel does on a connection is a
-- parameter, `Table`.
pub mod Fingerprints
pub mod Hashes
pub mod Lookups
pub mod Lockers
pub mod Vaults
use hyperswitch_card_vault.Common.{ℕ, map_error, Exec, ◌>>=◌}
use hyperswitch_card_vault.Error.Types.{StorageError}
use hyperswitch_card_vault.Error.Classify.{DieselError, StorageErrorExt}
use hyperswitch_card_vault.Storage.World.{World, on_db, DbPool}
use hyperswitch_card_vault.Kv.Query.{QueryFragment}

-- The statements on a table: run on a pool of connections, or as fragments for the drainer.
pub record Table (D New Row Pk : Type 0) : Type 0 where
  pub insert : DbPool → New → Exec D DieselError Row
  pub select : DbPool → Pk → Exec D DieselError Row
  pub insert_fragment : New → QueryFragment

pub record DeletableTable (D Pk : Type 0) : Type 0 where
  pub delete : DbPool → Pk → Exec D DieselError ℕ
  pub delete_fragment : Pk → QueryFragment

pub record UpdatableTable (D Update Row Pk : Type 0) : Type 0 where
  pub update : DbPool → Update → Pk → Exec D DieselError Row
  pub update_fragment : Update → Pk → QueryFragment

-- A statement on a connection, with the conversions of the two errors.
abbrev pub run_query :
    {R D Error A : Type 0}
    → (StorageError → Error)
    → StorageErrorExt Error
    → Exec (World R D) StorageError DbPool
    → (DbPool → Exec D DieselError A)
    → Exec (World R D) Error A
run_query of_storage errors conn query = do
  pool ← map_error of_storage conn
  map_error errors.of_diesel (on_db (query pool))

-- ===== src/Storage/World.antt =====
-- The state that the storage code reads and changes, of storage.rs: what Redis holds, what the
-- databases hold, and the runtime configuration as last fetched. `R` and `D` are the states of Redis
-- and of the databases, which are not this repository's code.
use hyperswitch_card_vault.Common.{Bool, true, false, ◌&&◌, Option, none, some, ok, err, Exec}
use hyperswitch_card_vault.Error.Types.{StorageError}
use hyperswitch_card_vault.Storage.Scheme.{KvState}

pub record RuntimeConfigValues : Type 0 where
  pub enable_kv : KvState
  pub use_replica : Bool

pub record World (R D : Type 0) : Type 0 where
  pub redis : R
  pub db : D
  pub runtime_config : Option RuntimeConfigValues

module _ {R D : Type 0} where
  -- A call of Redis, or of a database: it changes its own part of the world only.
  abbrev pub on_redis : {E A : Type 0} → Exec R E A → Exec (World R D) E A
  on_redis m w = let (a, r) = m w.redis in (a, record w { redis = r })

  abbrev pub on_db : {E A : Type 0} → Exec D E A → Exec (World R D) E A
  on_db m w = let (a, d) = m w.db in (a, record w { db = d })

  -- Storage::kv_settings
  unfoldable pub kv_settings : World R D → KvState
  kv_settings w = elim w.runtime_config [
    | none ↦ KvState.disabled
    | some runtime_config_values ↦ runtime_config_values.enable_kv
  ]

-- DbPool
pub data DbPool : Type 0 where
  primary replica : DbPool

-- The two connection pools: a request for a connection is granted or not.
pub record Pools (D : Type 0) : Type 0 where
  pub primary_pg_pool : D → Bool
  pub replica_pg_pool : Option (D → Bool)

unfoldable pub has_replica : {D : Type 0} → Pools D → Bool
has_replica pools = elim pools.replica_pg_pool [ none ↦ false | some _ ↦ true ]

module _ {R D : Type 0} (pools : Pools D) where
  unfoldable pub get_conn : Exec (World R D) StorageError DbPool
  get_conn w = elim (pools.primary_pg_pool w.db) [
    | true ↦ (ok DbPool.primary, w)
    | false ↦ (err StorageError.pool_client_failure, w)
  ]

  unfoldable pub get_replica_conn : Exec (World R D) StorageError DbPool
  get_replica_conn w = elim pools.replica_pg_pool [
    | none ↦ (err StorageError.replica_pool_not_configured, w)
    | some pg_pool ↦ elim (pg_pool w.db) [
      | true ↦ (ok DbPool.replica, w)
      | false ↦ (err StorageError.pool_client_failure, w)
    ]
  ]

  unfoldable pub should_use_replica : World R D → Bool
  unfolding has_replica
  should_use_replica w =
      has_replica pools && elim w.runtime_config [ none ↦ false | some conf ↦ conf.use_replica ]

  unfoldable pub route_conn : Exec (World R D) StorageError DbPool
  unfolding get_conn get_replica_conn should_use_replica
  route_conn w = elim (should_use_replica w) [ true ↦ get_replica_conn w | false ↦ get_conn w ]

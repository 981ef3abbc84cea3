-- ===== src/Kv/Resource.antt =====
-- storage/kv/resource.rs: the traits of a resource, and the choice of the storage for an operation.
pub mod Insert
pub mod Find
pub mod Mutate
pub mod RoundTrip
pub mod Routing
pub mod Lookups
use hyperswitch_card_vault.Common.{
  ℕ, Bool, true, false, Option, none, some, Text, Result, ok, err, map_error, pure, Exec, ◌>>=◌,
}
use hyperswitch_card_vault.Error.Classify.{StorageErrorExt}
use hyperswitch_card_vault.Storage.Scheme.{StorageScheme, KvState}
use hyperswitch_card_vault.Storage.World.{World, kv_settings, on_redis}
use hyperswitch_card_vault.Kv.Errors.{KvError, RedisError, to_redis_failed_response}
use hyperswitch_card_vault.Kv.Keys.{PartitionKey, to_string}
use hyperswitch_card_vault.Kv.Query.{SerializableQuery}
use hyperswitch_card_vault.Kv.Wrapper.{Serde, KvStore, KvOperation, KvResult, kv_wrapper}

-- KvResource, with the conversions that it asks of its types.
pub record KvResource (R D Error Self DieselNew DieselEntity PrimaryKey : Type 0) : Type 0 where
  pub entity_type : Text
  pub errors : StorageErrorExt Error
  pub of_kv : KvError → Error
  pub serde : Serde DieselEntity
  pub entity_of_new : DieselNew → DieselEntity
  pub self_of_entity : DieselEntity → Self
  pub get_partition_key : PrimaryKey → PartitionKey
  pub set_storage_scheme : StorageScheme → DieselNew → DieselNew
  pub generate_insert_drainer_query : DieselNew → Result KvError SerializableQuery
  pub storage_insert : DieselNew → Exec (World R D) Error DieselEntity
  pub storage_find : PrimaryKey → Exec (World R D) Error DieselEntity

-- KvDeletableResource
pub record KvDeletableResource (R D Error PrimaryKey : Type 0) : Type 0 where
  pub generate_delete_drainer_query : PrimaryKey → Result KvError SerializableQuery
  pub storage_delete : PrimaryKey → Exec (World R D) Error ℕ

-- KvUpdatableResource
pub record KvUpdatableResource (R D Error Self DieselUpdate DieselEntity PrimaryKey : Type 0)
    : Type 0 where
  pub set_update_storage_scheme : StorageScheme → DieselUpdate → DieselUpdate
  pub generate_update_drainer_query : DieselUpdate → PrimaryKey → Result KvError SerializableQuery
  pub apply_update : DieselUpdate → DieselEntity → DieselEntity
  pub storage_update : DieselUpdate → PrimaryKey → Exec (World R D) Error Self

-- KvSecondaryLookupResource; a `ReverseLookupKey` is its text.
pub record KvSecondaryLookupResource (R D Error Self DieselNew LookupKey : Type 0) : Type 0 where
  pub get_lookup_key : LookupKey → Text
  pub get_reverse_lookup_key : DieselNew → PartitionKey → LookupKey
  pub storage_find_by_lookup : LookupKey → Exec (World R D) Error Self

unfoldable pub is_redis_not_found : RedisError → Bool
is_redis_not_found RedisError.not_found = true
is_redis_not_found _ = false

unfoldable pub scheme_for_find : KvState → StorageScheme
scheme_for_find KvState.disabled = StorageScheme.postgres_only
scheme_for_find KvState.enabled = StorageScheme.redis_kv
scheme_for_find KvState.soft_kill = StorageScheme.redis_kv

unfoldable pub scheme_for_insert : KvState → StorageScheme
scheme_for_insert KvState.disabled = StorageScheme.postgres_only
scheme_for_insert KvState.soft_kill = StorageScheme.postgres_only
scheme_for_insert KvState.enabled = StorageScheme.redis_kv

module _ {R D Error Self DieselNew DieselEntity PrimaryKey : Type 0} (store : KvStore R)
    (M : KvResource R D Error Self DieselNew DieselEntity PrimaryKey) where
  unfoldable pub key_str : PartitionKey → Text
  key_str key = to_string store.hex_encode key

  -- The error of a failed call of Redis, as the resource's.
  unfoldable pub redis_failure : Text → RedisError → Error
  redis_failure key e = M.of_kv (to_redis_failed_response e key)

  -- The read of a cell: the value, a miss that the caller handles, or an error.
  unfoldable pub read_value :
      {A : Type 0}
      → Text
      → (DieselEntity → Exec (World R D) Error A)
      → Exec (World R D) Error A
      → Result RedisError (KvResult DieselEntity)
      → Exec (World R D) Error A
  read_value key hit miss (ok (KvResult.hget v)) = hit v
  read_value key hit miss (err e) = elim (is_redis_not_found e) [
    | true ↦ miss
    | false ↦ pure (err (redis_failure key e))
  ]
  read_value key hit miss (ok (KvResult.hset_nx _)) = pure (err (M.of_kv KvError.backend))
  read_value key hit miss (ok KvResult.hset) = pure (err (M.of_kv KvError.backend))
  read_value key hit miss (ok (KvResult.hdel _)) = pure (err (M.of_kv KvError.backend))

  -- `HGet` on the key and the field `key`, and what the caller does with the reply.
  unfoldable pub with_cell :
      {A : Type 0}
      → PartitionKey
      → (DieselEntity → Exec (World R D) Error A)
      → Exec (World R D) Error A
      → Exec (World R D) Error A
  with_cell key hit miss w =
      let (result, w') =
        on_redis (kv_wrapper store M.serde (KvOperation.hget (key_str key)) key) w in
      read_value (key_str key) hit miss result w'

  -- decide_storage_scheme_for_mutate_operation
  unfoldable pub scheme_for_mutate :
      PartitionKey → KvState → Exec (World R D) Error (StorageScheme × Option DieselEntity)
  scheme_for_mutate key KvState.disabled = pure (ok (StorageScheme.postgres_only, none))
  scheme_for_mutate key KvState.enabled = pure (ok (StorageScheme.redis_kv, none))
  scheme_for_mutate key KvState.soft_kill =
      with_cell key (λ v. pure (ok (StorageScheme.redis_kv, some v)))
        (pure (ok (StorageScheme.postgres_only, none)))

  unfoldable pub decide_storage_scheme_for_mutate_operation :
      PartitionKey → Exec (World R D) Error (StorageScheme × Option DieselEntity)
  decide_storage_scheme_for_mutate_operation key w = scheme_for_mutate key (kv_settings w) w

  -- A write through Redis, its error brought over.
  unfoldable pub kv_write :
      KvOperation DieselEntity → PartitionKey → Exec (World R D) Error (KvResult DieselEntity)
  kv_write op key =
      map_error (redis_failure (key_str key)) (on_redis (kv_wrapper store M.serde op key))

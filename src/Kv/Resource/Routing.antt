-- ===== src/Kv/Resource/Routing.antt =====
-- storage/kv/resource.rs: reads for which Redis fails.
use hyperswitch_card_vault.Common.{◌≡◌, ◌≢◌, ◌∙◌, arith, false, Text, ok, err, Exec, map_exec}
use hyperswitch_card_vault.Storage.Scheme.{StorageScheme, KvState}
use hyperswitch_card_vault.Storage.World.{World, kv_settings}
use hyperswitch_card_vault.Kv.Errors.{RedisError, to_redis_failed_response}
use hyperswitch_card_vault.Kv.Wrapper.{KvStore, KvOperation, kv_wrapper}
use hyperswitch_card_vault.Kv.Resource.{
  KvResource, scheme_for_find, is_redis_not_found, redis_failure, with_cell, read_value, key_str,
}
use hyperswitch_card_vault.Kv.Resource.Find.{
  find_under, find_resource_by_id_inner, find_resource_by_id,
}

pub scheme_for_find_lem :
    (s : KvState) → s ≢ KvState.disabled → scheme_for_find s ≡ StorageScheme.redis_kv
unfolding scheme_for_find
scheme_for_find_lem s on = ground arith

module _ {R D Error Self DieselNew DieselEntity PrimaryKey : Type 0} (store : KvStore R)
    (M : KvResource R D Error Self DieselNew DieselEntity PrimaryKey) where
  is_redis_not_found_lem :
      (e : RedisError) → e ≢ RedisError.not_found → is_redis_not_found e ≡ false
  unfolding is_redis_not_found
  is_redis_not_found_lem e h = ground arith

  find_by_cell :
      (pk : PrimaryKey) (w : World R D)
      → kv_settings w ≢ KvState.disabled
      → find_resource_by_id store M pk w
        ≡ map_exec M.self_of_entity
            (with_cell store M (M.get_partition_key pk) (λ v u. (ok v, u)) (M.storage_find pk))
            w
  unfolding find_resource_by_id find_resource_by_id_inner find_under
  find_by_cell pk w on = rw (scheme_for_find_lem (kv_settings w) on)

  read_value-failure :
      {A : Type 0} (key : Text) (hit : DieselEntity → Exec (World R D) Error A)
      (miss : Exec (World R D) Error A) (e : RedisError) (w : World R D)
      → e ≢ RedisError.not_found
      → read_value store M key hit miss (err e) w
        ≡ (err (M.of_kv (to_redis_failed_response e key)), w)
  unfolding read_value redis_failure
  read_value-failure key hit miss e w ne = rw (read_value, is_redis_not_found_lem e ne)

  -- With the KV layer enabled or soft-killed, a read by primary key for which Redis fails other than by
  -- a miss is that failure, and the database is not asked: the world is what Redis left.
  pub find_failure :
      (pk : PrimaryKey) (w : World R D) (e : RedisError) (r : R)
      → kv_settings w ≢ KvState.disabled
      → e ≢ RedisError.not_found
      → kv_wrapper store M.serde
          (KvOperation.hget (key_str store M (M.get_partition_key pk)))
          (M.get_partition_key pk)
          w.redis
        ≡ (err e, r)
      → find_resource_by_id store M pk w ≡ (
        err (M.of_kv (to_redis_failed_response e (key_str store M (M.get_partition_key pk)))),
        record w { redis = r },
      )
  unfolding with_cell
  find_failure pk w e r on ne h =
      find_by_cell pk w on
      ∙ rw (
        h,
        read_value-failure (key_str store M (M.get_partition_key pk)) (λ v u. (ok v, u))
            (M.storage_find pk) e _ ne,
      )

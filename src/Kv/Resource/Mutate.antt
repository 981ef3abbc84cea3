-- ===== src/Kv/Resource/Mutate.antt =====
-- storage/kv/resource.rs: the update and the deletes.
use hyperswitch_card_vault.Common.{
  ℕ, Option, none, some, Text, ok, map_err, map_error, pure, Exec, ◌>>=◌, ◌>>◌,
}
use hyperswitch_card_vault.Error.Types.{ReverseLookupDbError}
use hyperswitch_card_vault.Storage.Scheme.{StorageScheme}
use hyperswitch_card_vault.Storage.World.{World}
use hyperswitch_card_vault.Kv.Errors.{KvError}
use hyperswitch_card_vault.Kv.Wrapper.{KvStore, KvOperation, try_into_hset, try_into_hdel}
use hyperswitch_card_vault.Kv.Resource.{
  KvResource, KvDeletableResource, KvUpdatableResource, decide_storage_scheme_for_mutate_operation,
  key_str, kv_write,
}
use hyperswitch_card_vault.Kv.Resource.Find.{
  find_resource_by_id_inner, find_optional_resource_by_id,
}

module _ {R D Error Self DieselNew DieselEntity PrimaryKey : Type 0} (store : KvStore R)
    (M : KvResource R D Error Self DieselNew DieselEntity PrimaryKey) where
  module _ {DieselUpdate : Type 0}
      (U : KvUpdatableResource R D Error Self DieselUpdate DieselEntity PrimaryKey) where
    -- The row that the update starts from: the one already read, or read now.
    unfoldable pub current_row :
        Option DieselEntity → PrimaryKey → Exec (World R D) Error DieselEntity
    current_row (some resource) primary_key = pure (ok resource)
    current_row none primary_key = find_resource_by_id_inner store M primary_key

    unfoldable pub update_under :
        StorageScheme
        → Option DieselEntity
        → DieselUpdate
        → PrimaryKey
        → Exec (World R D) Error Self
    update_under StorageScheme.postgres_only cached update primary_key =
        U.storage_update update primary_key
    update_under StorageScheme.redis_kv cached update primary_key = do
      current ← current_row cached primary_key
      update_query ← pure (map_err M.of_kv (U.generate_update_drainer_query update primary_key))
      reply ←
          kv_write store M
            (KvOperation.hset (key_str store M (M.get_partition_key primary_key))
              (U.apply_update update current) update_query)
            (M.get_partition_key primary_key)
      pure (map_err (λ _. M.of_kv KvError.backend) (try_into_hset reply))
      pure (ok (M.self_of_entity (U.apply_update update current)))

    unfoldable pub update_resource_by_id : DieselUpdate → PrimaryKey → Exec (World R D) Error Self
    update_resource_by_id update primary_key = do
      (scheme, cached) ←
          decide_storage_scheme_for_mutate_operation store M (M.get_partition_key primary_key)
      update_under scheme cached (U.set_update_storage_scheme scheme update) primary_key

  module _ (X : KvDeletableResource R D Error PrimaryKey) where
    unfoldable pub delete_under : StorageScheme → PrimaryKey → Exec (World R D) Error ℕ
    delete_under StorageScheme.postgres_only primary_key = X.storage_delete primary_key
    delete_under StorageScheme.redis_kv primary_key = do
      delete_query ← pure (map_err M.of_kv (X.generate_delete_drainer_query primary_key))
      reply ←
          kv_write store M
            (KvOperation.hdel (key_str store M (M.get_partition_key primary_key)) delete_query)
            (M.get_partition_key primary_key)
      pure (map_err (λ _. M.of_kv KvError.backend) (try_into_hdel reply))

    unfoldable pub delete_resource_by_id_inner : PrimaryKey → Exec (World R D) Error ℕ
    delete_resource_by_id_inner primary_key = do
      (scheme, cached) ←
          decide_storage_scheme_for_mutate_operation store M (M.get_partition_key primary_key)
      delete_under scheme primary_key

    unfoldable pub delete_resource_by_id : PrimaryKey → Exec (World R D) Error ℕ
    delete_resource_by_id primary_key = delete_resource_by_id_inner primary_key

    -- `delete_reverse_lookup` is the store's operation of that name.
    module _ (get_reverse_lookup_key_from_resource : Self → Text)
        (delete_reverse_lookup : Text → Exec (World R D) ReverseLookupDbError ℕ) where
      unfoldable pub delete_lookup : Option Self → Exec (World R D) Error (Unit {0})
      delete_lookup none = pure (ok tt)
      delete_lookup (some resource) = do
        rows ←
            map_error (λ _. M.of_kv KvError.backend)
              (delete_reverse_lookup (get_reverse_lookup_key_from_resource resource))
        pure (ok tt)

      unfoldable pub delete_resource_by_id_with_reverse_lookup :
          PrimaryKey → Exec (World R D) Error ℕ
      delete_resource_by_id_with_reverse_lookup primary_key = do
        resource ← find_optional_resource_by_id store M primary_key
        deleted_rows ← delete_resource_by_id_inner primary_key
        delete_lookup resource
        pure (ok deleted_rows)

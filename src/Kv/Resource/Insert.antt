-- ===== src/Kv/Resource/Insert.antt =====
-- storage/kv/resource.rs: the inserts.
use hyperswitch_card_vault.Common.{
  Text, Result, ok, err, map_err, map_error, map_exec, pure, Exec, ◌>>=◌, ◌>>◌,
}
use hyperswitch_card_vault.Error.Types.{ReverseLookupDbError}
use hyperswitch_card_vault.Storage.Scheme.{StorageScheme, scheme_to_string}
use hyperswitch_card_vault.Storage.Rows.{ReverseLookup, ReverseLookupNew}
use hyperswitch_card_vault.Storage.World.{World, kv_settings}
use hyperswitch_card_vault.Kv.Errors.{KvError}
use hyperswitch_card_vault.Kv.Keys.{PartitionKey}
use hyperswitch_card_vault.Kv.Wrapper.{KvStore, KvOperation, KvResult, HsetnxReply, try_into_hsetnx}
use hyperswitch_card_vault.Kv.Resource.{
  KvResource, KvSecondaryLookupResource, scheme_for_insert, key_str, kv_write,
}

module _ {R D Error Self DieselNew DieselEntity PrimaryKey : Type 0} (store : KvStore R)
    (M : KvResource R D Error Self DieselNew DieselEntity PrimaryKey) where
  -- The reply to `HSetNx`.
  unfoldable pub inserted : Text → DieselEntity → KvResult DieselEntity → Result Error DieselEntity
  inserted key entity reply = elim (try_into_hsetnx reply) [
    | ok HsetnxReply.key_set ↦ ok entity
    | ok HsetnxReply.key_not_set ↦ err (M.of_kv (KvError.duplicate_value key))
    | err _ ↦ err (M.of_kv KvError.backend)
  ]

  -- The insert of a row whose Redis branch first writes what `insert_lookup` writes: the record of the
  -- secondary key, or nothing where the closure of the code answers `None`.
  unfoldable pub insert_under :
      StorageScheme
      → DieselNew
      → PartitionKey
      → (DieselNew → PartitionKey → Exec (World R D) Error (Unit {0}))
      → Exec (World R D) Error DieselEntity
  insert_under StorageScheme.postgres_only diesel_new partition_key insert_lookup =
      M.storage_insert diesel_new
  insert_under StorageScheme.redis_kv diesel_new partition_key insert_lookup = do
    drainer_query ← pure (map_err M.of_kv (M.generate_insert_drainer_query diesel_new))
    insert_lookup diesel_new partition_key
    reply ←
        kv_write store M
          (KvOperation.hset_nx (key_str store M partition_key) (M.entity_of_new diesel_new)
            drainer_query)
          partition_key
    pure (inserted (key_str store M partition_key) (M.entity_of_new diesel_new) reply)

  unfoldable pub insert_resource_inner :
      DieselNew
      → PartitionKey
      → (DieselNew → PartitionKey → Exec (World R D) Error (Unit {0}))
      → Exec (World R D) Error DieselEntity
  insert_resource_inner diesel_new partition_key insert_lookup w =
      let scheme = scheme_for_insert (kv_settings w) in
      insert_under scheme (M.set_storage_scheme scheme diesel_new) partition_key insert_lookup w

  unfoldable pub insert_resource : DieselNew → PartitionKey → Exec (World R D) Error Self
  insert_resource diesel_new partition_key =
      map_exec M.self_of_entity
        (insert_resource_inner diesel_new partition_key (λ _ _. pure (ok tt)))

  -- `insert_reverse_lookup` is the store's operation of that name.
  module _ {LookupKey : Type 0} (L : KvSecondaryLookupResource R D Error Self DieselNew LookupKey)
      (insert_reverse_lookup : ReverseLookupNew
        → Exec (World R D) ReverseLookupDbError ReverseLookup) where
    unfoldable pub reverse_lookup_new : Text → PartitionKey → ReverseLookupNew
    reverse_lookup_new lookup_id key = record {
      lookup_id = lookup_id;
      secondary_key = lookup_id;
      partition_key = key_str store M key;
      source = M.entity_type;
      updated_by = scheme_to_string StorageScheme.redis_kv;
    }

    unfoldable pub insert_lookup : DieselNew → PartitionKey → Exec (World R D) Error (Unit {0})
    insert_lookup new_object key = do
      lookup ←
          map_error (λ _. M.of_kv KvError.backend)
            (insert_reverse_lookup
              (reverse_lookup_new (L.get_lookup_key (L.get_reverse_lookup_key new_object key)) key))
      pure (ok tt)

    unfoldable pub insert_resource_with_reverse_lookup :
        DieselNew → PartitionKey → Exec (World R D) Error Self
    insert_resource_with_reverse_lookup diesel_new partition_key =
        map_exec M.self_of_entity (insert_resource_inner diesel_new partition_key insert_lookup)

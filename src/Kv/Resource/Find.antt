-- ===== src/Kv/Resource/Find.antt =====
-- storage/kv/resource.rs: the reads.
use hyperswitch_card_vault.Common.{
  true, false, Option, none, some, Text, Result, ok, err, map_exec, pure, Exec,
}
use hyperswitch_card_vault.Error.Types.{ReverseLookupDbError}
use hyperswitch_card_vault.Error.Classify.{StorageErrorExt, reverse_lookup_errors}
use hyperswitch_card_vault.Storage.Scheme.{StorageScheme}
use hyperswitch_card_vault.Storage.Rows.{ReverseLookup}
use hyperswitch_card_vault.Storage.World.{World, kv_settings}
use hyperswitch_card_vault.Kv.Errors.{KvError}
use hyperswitch_card_vault.Kv.Keys.{PartitionKey}
use hyperswitch_card_vault.Kv.Wrapper.{KvStore}
use hyperswitch_card_vault.Kv.Resource.{
  KvResource, KvSecondaryLookupResource, scheme_for_find, with_cell,
}

-- A missing row is no error for the `find_optional_` functions.
unfoldable pub optional : {E A : Type 0} → StorageErrorExt E → Result E A → Result E (Option A)
optional errors (ok resource) = ok (some resource)
optional errors (err e) = elim (errors.is_not_found e) [ true ↦ ok none | false ↦ err e ]

module _ {R D Error Self DieselNew DieselEntity PrimaryKey : Type 0} (store : KvStore R)
    (M : KvResource R D Error Self DieselNew DieselEntity PrimaryKey) where
  unfoldable pub find_under : StorageScheme → PrimaryKey → Exec (World R D) Error DieselEntity
  find_under StorageScheme.postgres_only primary_key = M.storage_find primary_key
  find_under StorageScheme.redis_kv primary_key =
      with_cell store M (M.get_partition_key primary_key) (λ v. pure (ok v))
        (M.storage_find primary_key)

  unfoldable pub find_resource_by_id_inner : PrimaryKey → Exec (World R D) Error DieselEntity
  find_resource_by_id_inner primary_key w =
      find_under (scheme_for_find (kv_settings w)) primary_key w

  unfoldable pub find_resource_by_id : PrimaryKey → Exec (World R D) Error Self
  find_resource_by_id primary_key =
      map_exec M.self_of_entity (find_resource_by_id_inner primary_key)

  unfoldable pub find_optional_resource_by_id : PrimaryKey → Exec (World R D) Error (Option Self)
  find_optional_resource_by_id primary_key w =
      let (a, w') = find_resource_by_id primary_key w in (optional M.errors a, w')

  -- `find_by_lookup_id` is the store's operation of that name.
  module _ {LookupKey : Type 0} (L : KvSecondaryLookupResource R D Error Self DieselNew LookupKey)
      (find_by_lookup_id : Text → Exec (World R D) ReverseLookupDbError ReverseLookup) where
    -- What follows the read of the reverse lookup record.
    unfoldable pub find_through :
        LookupKey → Result ReverseLookupDbError ReverseLookup → Exec (World R D) Error Self
    find_through lookup_key (ok lookup) =
        with_cell store M (PartitionKey.combination_key lookup.partition_key)
          (λ v. pure (ok (M.self_of_entity v))) (L.storage_find_by_lookup lookup_key)
    find_through lookup_key (err e) = elim (reverse_lookup_errors.is_not_found e) [
      | true ↦ L.storage_find_by_lookup lookup_key
      | false ↦ pure (err (M.of_kv KvError.backend))
    ]

    unfoldable pub find_by_lookup_under : StorageScheme → LookupKey → Exec (World R D) Error Self
    find_by_lookup_under StorageScheme.postgres_only lookup_key w =
        L.storage_find_by_lookup lookup_key w
    find_by_lookup_under StorageScheme.redis_kv lookup_key w =
        let (lookup, w') = find_by_lookup_id (L.get_lookup_key lookup_key) w in
        find_through lookup_key lookup w'

    unfoldable pub find_resource_by_lookup_id : LookupKey → Exec (World R D) Error Self
    find_resource_by_lookup_id lookup_key w =
        find_by_lookup_under (scheme_for_find (kv_settings w)) lookup_key w

    unfoldable pub find_optional_resource_by_lookup_id :
        LookupKey → Exec (World R D) Error (Option Self)
    find_optional_resource_by_lookup_id lookup_key w =
        let (a, w') = find_resource_by_lookup_id lookup_key w in (optional M.errors a, w')

-- ===== src/Kv/Impls/Lockers.antt =====
-- storage/kv/impls/locker.rs and the operations of storage/db.rs on the locker table.
use hyperswitch_card_vault.Common.{ℕ, ◌++◌, Option, some, Text, codes, Exec, map_exec}
use hyperswitch_card_vault.Error.Types.{VaultDbError, ReverseLookupDbError}
use hyperswitch_card_vault.Error.FromStorage.{vault_of_storage}
use hyperswitch_card_vault.Error.Classify.{vault_errors}
use hyperswitch_card_vault.Storage.Rows.{
  LockerNew, LockerInner, Locker, locker_inner_of_new, locker_of_inner, ReverseLookup,
  ReverseLookupNew,
}
use hyperswitch_card_vault.Storage.World.{World, Pools, get_conn, route_conn, DbPool}
use hyperswitch_card_vault.Error.Classify.{DieselError}
use hyperswitch_card_vault.Kv.Errors.{vault_of_kv}
use hyperswitch_card_vault.Kv.Keys.{PartitionKey}
use hyperswitch_card_vault.Kv.Query.{generate_insert_query, generate_delete_query}
use hyperswitch_card_vault.Kv.Wrapper.{Serde, KvStore}
use hyperswitch_card_vault.Kv.Resource.{KvResource, KvDeletableResource, KvSecondaryLookupResource}
use hyperswitch_card_vault.Kv.Resource.Insert.{insert_resource_with_reverse_lookup}
use hyperswitch_card_vault.Kv.Resource.Find.{
  find_resource_by_id, find_optional_resource_by_lookup_id,
}
use hyperswitch_card_vault.Kv.Resource.Mutate.{delete_resource_by_id_with_reverse_lookup}
use hyperswitch_card_vault.Kv.Impls.{Table, DeletableTable, run_query}

pub record LockerPrimaryKeyType : Type 0 where
  pub locker_id : Text
  pub merchant_id : Text
  pub customer_id : Text

pub record LockerHashLookupKey : Type 0 where
  pub hash_id : Text
  pub merchant_id : Text
  pub customer_id : Text

unfoldable pub locker_lookup_id : Text → Text → Text → Text
locker_lookup_id merchant_id customer_id hash_id =
    codes "locker_" ++ (merchant_id ++ (codes "_" ++ (customer_id ++ (codes "_" ++ hash_id))))

unfoldable pub get_lookup_key : LockerHashLookupKey → Text
get_lookup_key self = locker_lookup_id self.merchant_id self.customer_id self.hash_id

unfoldable pub get_reverse_lookup_key : LockerNew → PartitionKey → LockerHashLookupKey
get_reverse_lookup_key new_object partition_key = record {
  hash_id = new_object.hash_id;
  merchant_id = new_object.merchant_id;
  customer_id = new_object.customer_id;
}

unfoldable pub get_reverse_lookup_key_from_resource : Locker → Text
get_reverse_lookup_key_from_resource resource =
    locker_lookup_id resource.merchant_id resource.customer_id resource.hash_id

abbrev pub locker_partition_key : LockerPrimaryKeyType → PartitionKey
locker_partition_key self = PartitionKey.locker self.merchant_id self.customer_id self.locker_id

module _ {R D : Type 0} (store : KvStore R) (pools : Pools D) (serde : Serde LockerInner)
    (table : Table D LockerNew LockerInner LockerPrimaryKeyType) where
  abbrev pub locker_resource :
      KvResource R D VaultDbError Locker LockerNew LockerInner LockerPrimaryKeyType
  locker_resource = record {
    entity_type = codes "locker";
    errors = vault_errors;
    of_kv = vault_of_kv;
    serde = serde;
    entity_of_new = locker_inner_of_new;
    self_of_entity = locker_of_inner;
    get_partition_key = locker_partition_key;
    set_storage_scheme = λ scheme new_object. record new_object { updated_by = some scheme };
    generate_insert_drainer_query =
        λ new_object. generate_insert_query (codes "locker") (table.insert_fragment new_object);
    storage_insert = λ new_object.
        run_query vault_of_storage vault_errors (get_conn pools)
          (λ pool. table.insert pool new_object);
    storage_find = λ pk.
        run_query vault_of_storage vault_errors (route_conn pools) (λ pool. table.select pool pk);
  }

  unfoldable pub find_by_locker_id_merchant_id_customer_id :
      Text → Text → Text → Exec (World R D) VaultDbError Locker
  find_by_locker_id_merchant_id_customer_id locker_id merchant_id customer_id =
      find_resource_by_id store locker_resource
        (record { locker_id = locker_id; merchant_id = merchant_id; customer_id = customer_id })

  module _ (select_by_hash : DbPool → LockerHashLookupKey → Exec D DieselError LockerInner) where
    abbrev pub locker_lookup :
        KvSecondaryLookupResource R D VaultDbError Locker LockerNew LockerHashLookupKey
    locker_lookup = record {
      get_lookup_key = get_lookup_key;
      get_reverse_lookup_key = get_reverse_lookup_key;
      storage_find_by_lookup = λ lookup_key. map_exec locker_of_inner (
          run_query vault_of_storage vault_errors (route_conn pools)
            (λ pool. select_by_hash pool lookup_key));
    }

    unfoldable pub insert_locker :
        (ReverseLookupNew → Exec (World R D) ReverseLookupDbError ReverseLookup)
        → LockerNew
        → Exec (World R D) VaultDbError Locker
    insert_locker insert_reverse_lookup new =
        insert_resource_with_reverse_lookup store locker_resource locker_lookup
          insert_reverse_lookup new
          (PartitionKey.locker new.merchant_id new.customer_id new.locker_id)

    unfoldable pub find_optional_by_hash_id_merchant_id_customer_id :
        (Text → Exec (World R D) ReverseLookupDbError ReverseLookup)
        → Text
        → Text
        → Text
        → Exec (World R D) VaultDbError (Option Locker)
    find_optional_by_hash_id_merchant_id_customer_id find_by_lookup_id hash_id merchant_id
          customer_id =
        find_optional_resource_by_lookup_id store locker_resource locker_lookup find_by_lookup_id
          (record { hash_id = hash_id; merchant_id = merchant_id; customer_id = customer_id })

  module _ (deletable : DeletableTable D LockerPrimaryKeyType) where
    abbrev pub locker_deletable : KvDeletableResource R D VaultDbError LockerPrimaryKeyType
    locker_deletable = record {
      generate_delete_drainer_query =
          λ pk. generate_delete_query (codes "locker") (deletable.delete_fragment pk);
      storage_delete = λ pk.
          run_query vault_of_storage vault_errors (get_conn pools)
            (λ pool. deletable.delete pool pk);
    }

    unfoldable pub delete_locker :
        (Text → Exec (World R D) ReverseLookupDbError ℕ)
        → Text
        → Text
        → Text
        → Exec (World R D) VaultDbError ℕ
    delete_locker delete_reverse_lookup locker_id merchant_id customer_id =
        delete_resource_by_id_with_reverse_lookup store locker_resource locker_deletable
          get_reverse_lookup_key_from_resource delete_reverse_lookup
          (record { locker_id = locker_id; merchant_id = merchant_id; customer_id = customer_id })

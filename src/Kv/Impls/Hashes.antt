-- ===== src/Kv/Impls/Hashes.antt =====
-- storage/kv/impls/hash_table.rs and the operations of storage/db.rs on the hash table.
use hyperswitch_card_vault.Common.{Option, some, Text, codes, Exec}
use hyperswitch_card_vault.Error.Types.{HashDbError}
use hyperswitch_card_vault.Error.FromStorage.{hash_of_storage}
use hyperswitch_card_vault.Error.Classify.{hash_errors}
use hyperswitch_card_vault.Storage.Scheme.{StorageScheme}
use hyperswitch_card_vault.Storage.Rows.{Bytes, Time, HashTableNew, HashTable, hash_table_of_new}
use hyperswitch_card_vault.Storage.World.{World, Pools, get_conn, route_conn}
use hyperswitch_card_vault.Kv.Errors.{hash_of_kv}
use hyperswitch_card_vault.Kv.Keys.{PartitionKey}
use hyperswitch_card_vault.Kv.Query.{generate_insert_query}
use hyperswitch_card_vault.Kv.Wrapper.{Serde, KvStore}
use hyperswitch_card_vault.Kv.Resource.{KvResource}
use hyperswitch_card_vault.Kv.Resource.Insert.{insert_resource}
use hyperswitch_card_vault.Kv.Resource.Find.{find_optional_resource_by_id}
use hyperswitch_card_vault.Kv.Impls.{Table, run_query}

module _ {R D : Type 0} (store : KvStore R) (pools : Pools D) (serde : Serde HashTable)
    (table : Table D HashTableNew HashTable Bytes) where
  abbrev pub hash_table_resource : KvResource R D HashDbError HashTable HashTableNew HashTable Bytes
  hash_table_resource = record {
    entity_type = codes "hash_table";
    errors = hash_errors;
    of_kv = hash_of_kv;
    serde = serde;
    entity_of_new = hash_table_of_new;
    self_of_entity = λ row. row;
    get_partition_key = PartitionKey.hash_table;
    set_storage_scheme = λ scheme new_object. record new_object { updated_by = some scheme };
    generate_insert_drainer_query =
        λ new_object. generate_insert_query (codes "hash_table") (table.insert_fragment new_object);
    storage_insert = λ new_object.
        run_query hash_of_storage hash_errors (get_conn pools)
          (λ pool. table.insert pool new_object);
    storage_find = λ pk.
        run_query hash_of_storage hash_errors (route_conn pools) (λ pool. table.select pool pk);
  }

  unfoldable pub find_optional_by_data_hash :
      Bytes → Exec (World R D) HashDbError (Option HashTable)
  find_optional_by_data_hash data_hash =
      find_optional_resource_by_id store hash_table_resource data_hash

  -- The new identifier and the time are arguments.
  unfoldable pub insert_hash : Text → Time → Bytes → Exec (World R D) HashDbError HashTable
  insert_hash generate_uuid now data_hash =
      let hash_table_new : HashTableNew = record {
        hash_id = generate_uuid;
        data_hash = data_hash;
        created_at = now;
        updated_by = some StorageScheme.postgres_only;
      } in
      insert_resource store hash_table_resource hash_table_new (PartitionKey.hash_table data_hash)

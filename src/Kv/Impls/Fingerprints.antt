-- ===== src/Kv/Impls/Fingerprints.antt =====
-- storage/kv/impls/fingerprint.rs and the operations of storage/db.rs on the fingerprint table.
use hyperswitch_card_vault.Common.{Option, some, Text, codes, Exec}
use hyperswitch_card_vault.Error.Types.{FingerprintDbError}
use hyperswitch_card_vault.Error.FromStorage.{fingerprint_of_storage}
use hyperswitch_card_vault.Error.Classify.{fingerprint_errors}
use hyperswitch_card_vault.Storage.Scheme.{StorageScheme}
use hyperswitch_card_vault.Storage.Rows.{
  Bytes, FingerprintTableNew, Fingerprint, fingerprint_of_new,
}
use hyperswitch_card_vault.Storage.World.{World, Pools, get_conn, route_conn}
use hyperswitch_card_vault.Kv.Errors.{fingerprint_of_kv}
use hyperswitch_card_vault.Kv.Keys.{PartitionKey}
use hyperswitch_card_vault.Kv.Query.{generate_insert_query}
use hyperswitch_card_vault.Kv.Wrapper.{Serde, KvStore}
use hyperswitch_card_vault.Kv.Resource.{KvResource}
use hyperswitch_card_vault.Kv.Resource.Insert.{insert_resource}
use hyperswitch_card_vault.Kv.Resource.Find.{find_optional_resource_by_id}
use hyperswitch_card_vault.Kv.Impls.{Table, run_query}

module _ {R D : Type 0} (store : KvStore R) (pools : Pools D) (serde : Serde Fingerprint)
    (table : Table D FingerprintTableNew Fingerprint Bytes) where
  abbrev pub fingerprint_resource :
      KvResource R D FingerprintDbError Fingerprint FingerprintTableNew Fingerprint Bytes
  fingerprint_resource = record {
    entity_type = codes "fingerprint";
    errors = fingerprint_errors;
    of_kv = fingerprint_of_kv;
    serde = serde;
    entity_of_new = fingerprint_of_new;
    self_of_entity = λ row. row;
    get_partition_key = PartitionKey.fingerprint;
    set_storage_scheme = λ scheme new_object. record new_object { updated_by = some scheme };
    generate_insert_drainer_query = λ new_object.
        generate_insert_query (codes "fingerprint") (table.insert_fragment new_object);
    storage_insert = λ new_object.
        run_query fingerprint_of_storage fingerprint_errors (get_conn pools)
          (λ pool. table.insert pool new_object);
    storage_find = λ pk.
        run_query fingerprint_of_storage fingerprint_errors (route_conn pools)
          (λ pool. table.select pool pk);
  }

  unfoldable pub find_optional_by_fingerprint_hash :
      Bytes → Exec (World R D) FingerprintDbError (Option Fingerprint)
  find_optional_by_fingerprint_hash fingerprint_hash =
      find_optional_resource_by_id store fingerprint_resource fingerprint_hash

  unfoldable pub insert_fingerprint : Bytes → Text → Exec (World R D) FingerprintDbError Fingerprint
  insert_fingerprint fingerprint_hash fingerprint_id =
      let finger_print_new : FingerprintTableNew = record {
        fingerprint_hash = fingerprint_hash;
        fingerprint_id = fingerprint_id;
        updated_by = some StorageScheme.postgres_only;
      } in
      insert_resource store fingerprint_resource finger_print_new
        (PartitionKey.fingerprint fingerprint_hash)

-- ===== src/Kv/Impls/Lookups.antt =====
-- storage/kv/impls/reverse_lookup.rs and the operations of storage/db.rs on the reverse lookup table.
pub mod RoundTrip
pub mod Duplicates
use hyperswitch_card_vault.Common.{ℕ, Text, codes, Exec}
use hyperswitch_card_vault.Error.Types.{ReverseLookupDbError}
use hyperswitch_card_vault.Error.FromStorage.{reverse_lookup_of_storage}
use hyperswitch_card_vault.Error.Classify.{reverse_lookup_errors}
use hyperswitch_card_vault.Storage.Scheme.{scheme_to_string}
use hyperswitch_card_vault.Storage.Rows.{ReverseLookupNew, ReverseLookup, reverse_lookup_of_new}
use hyperswitch_card_vault.Storage.World.{World, Pools, get_conn}
use hyperswitch_card_vault.Kv.Errors.{reverse_lookup_of_kv}
use hyperswitch_card_vault.Kv.Keys.{PartitionKey}
use hyperswitch_card_vault.Kv.Query.{generate_insert_query, generate_delete_query}
use hyperswitch_card_vault.Kv.Wrapper.{Serde, KvStore}
use hyperswitch_card_vault.Kv.Resource.{KvResource, KvDeletableResource}
use hyperswitch_card_vault.Kv.Resource.Insert.{insert_resource}
use hyperswitch_card_vault.Kv.Resource.Find.{find_resource_by_id}
use hyperswitch_card_vault.Kv.Resource.Mutate.{delete_resource_by_id}
use hyperswitch_card_vault.Kv.Impls.{Table, DeletableTable, run_query}

module _ {R D : Type 0} (store : KvStore R) (pools : Pools D) (serde : Serde ReverseLookup)
    (table : Table D ReverseLookupNew ReverseLookup Text) where
  abbrev pub reverse_lookup_resource :
      KvResource R D ReverseLookupDbError ReverseLookup ReverseLookupNew ReverseLookup Text
  reverse_lookup_resource = record {
    entity_type = codes "reverse_lookup";
    errors = reverse_lookup_errors;
    of_kv = reverse_lookup_of_kv;
    serde = serde;
    entity_of_new = reverse_lookup_of_new;
    self_of_entity = λ row. row;
    get_partition_key = PartitionKey.reverse_lookup;
    set_storage_scheme =
        λ scheme new_object. record new_object { updated_by = scheme_to_string scheme };
    generate_insert_drainer_query = λ new_object.
        generate_insert_query (codes "reverse_lookup") (table.insert_fragment new_object);
    storage_insert = λ new_object.
        run_query reverse_lookup_of_storage reverse_lookup_errors (get_conn pools)
          (λ pool. table.insert pool new_object);
    storage_find = λ pk.
        run_query reverse_lookup_of_storage reverse_lookup_errors (get_conn pools)
          (λ pool. table.select pool pk);
  }

  unfoldable pub find_by_lookup_id : Text → Exec (World R D) ReverseLookupDbError ReverseLookup
  find_by_lookup_id lookup_id = find_resource_by_id store reverse_lookup_resource lookup_id

  unfoldable pub insert_reverse_lookup :
      ReverseLookupNew → Exec (World R D) ReverseLookupDbError ReverseLookup
  insert_reverse_lookup new =
      insert_resource store reverse_lookup_resource new (PartitionKey.reverse_lookup new.lookup_id)

  module _ (deletable : DeletableTable D Text) where
    abbrev pub reverse_lookup_deletable : KvDeletableResource R D ReverseLookupDbError Text
    reverse_lookup_deletable = record {
      generate_delete_drainer_query =
          λ pk. generate_delete_query (codes "reverse_lookup") (deletable.delete_fragment pk);
      storage_delete = λ pk.
          run_query reverse_lookup_of_storage reverse_lookup_errors (get_conn pools)
            (λ pool. deletable.delete pool pk);
    }

    unfoldable pub delete_reverse_lookup : Text → Exec (World R D) ReverseLookupDbError ℕ
    delete_reverse_lookup lookup_id =
        delete_resource_by_id store reverse_lookup_resource reverse_lookup_deletable lookup_id

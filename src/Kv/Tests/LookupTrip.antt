-- ===== src/Kv/Tests/LookupTrip.antt =====
-- Runs of an insert with a reverse lookup record on the vault table, on a Redis in memory.
use hyperswitch_card_vault.Common.{
  same_text, ◌≡◌, refl, true, [], some, Text, codes, ok, err, arith,
}
use hyperswitch_card_vault.Error.Classify.{DieselError}
use hyperswitch_card_vault.Storage.Scheme.{KvState, scheme_to_string}
use hyperswitch_card_vault.Storage.Rows.{ReverseLookup, ReverseLookupNew, reverse_lookup_of_new}
use hyperswitch_card_vault.Storage.Vaults.{vault_of_inner, set_updated_by, inner_of_new_inner}
use hyperswitch_card_vault.Storage.World.{kv_settings}
use hyperswitch_card_vault.Kv.Keys.{to_string}
use hyperswitch_card_vault.Kv.Query.{DatabaseOperation, SerializableQuery, generate_insert_query}
use hyperswitch_card_vault.Kv.Wrapper.{Serde}
use hyperswitch_card_vault.Kv.Memory.{memory_view, memory_conn, memory_IsRedis}
use hyperswitch_card_vault.Kv.Resource.{key_str}
use hyperswitch_card_vault.Kv.Resource.Insert.{
  insert_resource_with_reverse_lookup, reverse_lookup_new,
}
use hyperswitch_card_vault.Kv.Resource.Find.{
  find_resource_by_id, find_optional_resource_by_lookup_id,
}
use hyperswitch_card_vault.Kv.Impls.{Table}
use hyperswitch_card_vault.Kv.Impls.Lookups.{insert_reverse_lookup, find_by_lookup_id}
use hyperswitch_card_vault.Error.Types.{VaultDbError}
use hyperswitch_card_vault.Kv.Errors.{vault_of_kv}
use hyperswitch_card_vault.Kv.Impls.Lookups.Duplicates.{lookup_insert_duplicate}
use hyperswitch_card_vault.Kv.Impls.Lookups.RoundTrip.{lookup_insert_then_find}
use hyperswitch_card_vault.Kv.Tests.{row, empty, new_row, key, pk, store, pools, vaults, W, query}
use hyperswitch_card_vault.Kv.Tests.Lookups.{by_text}

-- The text of the lookup records of this test is their identifier.
abbrev lookup_serde : Serde ReverseLookup
lookup_serde = record {
  to_json = λ r. some r.lookup_id;
  from_json = λ t. some (record {
    lookup_id = t;
    secondary_key = t;
    partition_key = codes "vault_m_v";
    source = codes "vault";
    updated_by = codes "redis_kv";
  });
}

abbrev lookup_table : Table (Unit {0}) ReverseLookupNew ReverseLookup Text
lookup_table = record {
  insert = λ pool new d. (ok (reverse_lookup_of_new new), d);
  select = λ pool pk d. (err DieselError.not_found, d);
  insert_fragment = λ new. record {
    to_sql = some (codes "LOOKUP");
    is_safe_to_cache_prepared = some true;
    collect_binds = some ([], []);
  };
}

abbrev lookup_query : SerializableQuery
lookup_query = record (query (codes "LOOKUP") DatabaseOperation.insert) {
  entity_type = codes "reverse_lookup";
}

lookup_insert_then_find_example :
    (w' : W) × (insert_resource_with_reverse_lookup store vaults by_text
        (insert_reverse_lookup store pools lookup_serde lookup_table)
        new_row
        key
        (empty KvState.enabled)
      ≡ (ok (vault_of_inner (row (codes "data"))), w'))
    × (find_optional_resource_by_lookup_id store vaults by_text
          (find_by_lookup_id store pools lookup_serde lookup_table)
          (codes "v")
          w'
        ≡ (ok (some (vault_of_inner (row (codes "data")))), w'))
    × (find_resource_by_id store vaults pk w' ≡ (ok (vault_of_inner (row (codes "data"))), w'))
    × (w'.db ≡ tt)
unfolding kv_settings generate_insert_query set_updated_by inner_of_new_inner reverse_lookup_new
    reverse_lookup_of_new to_string key_str scheme_to_string
lookup_insert_then_find_example =
    lookup_insert_then_find store memory_view memory_conn memory_IsRedis refl pools lookup_serde
      lookup_table vaults by_text new_row pk (empty KvState.enabled)
      (query (codes "INSERT") DatabaseOperation.insert) lookup_query (codes "INSERT") (codes "data")
      (codes "LOOKUP") (codes "v") refl refl refl refl (ground arith) refl refl refl refl refl refl
      refl refl

-- Redis has the record's key, not the row's.
abbrev recorded : W
recorded = record (empty KvState.enabled) {
  redis =
      memory_view.put (codes "reverse_lookup_v") (codes "reverse_lookup_v") (codes "v")
        (empty KvState.enabled).redis;
}

-- The error of a duplicate is not told from any other.
lookup_insert_duplicate_example :
    insert_resource_with_reverse_lookup store vaults by_text
      (insert_reverse_lookup store pools lookup_serde lookup_table)
      new_row
      key
      recorded
    ≡ (err VaultDbError.unknown_error, recorded)
unfolding kv_settings generate_insert_query set_updated_by inner_of_new_inner reverse_lookup_new
    reverse_lookup_of_new to_string key_str scheme_to_string vault_of_kv same_text
lookup_insert_duplicate_example =
    lookup_insert_duplicate store memory_view memory_conn memory_IsRedis refl pools lookup_serde
      lookup_table vaults by_text new_row key recorded
      (query (codes "INSERT") DatabaseOperation.insert) lookup_query (codes "LOOKUP") (codes "v")
      (codes "v") refl refl refl refl refl refl refl

-- ===== src/Kv/Tests.antt =====
-- Runs of the KV layer on the vault table, on a Redis in memory and a database that has no row.
mod Routes
mod Lookups
mod LookupTrip
use hyperswitch_card_vault.Common.{◌≡◌, refl, true, [], ◌∷◌, none, some, Text, codes, ok, err}
use hyperswitch_card_vault.Error.Types.{VaultDbError}
use hyperswitch_card_vault.Error.Classify.{DieselError}
use hyperswitch_card_vault.Storage.Scheme.{StorageScheme, KvState}
use hyperswitch_card_vault.Storage.Vaults.{
  Vault, VaultUpdate, VaultInner, VaultNewInner, inner_of_new_inner, vault_of_inner, set_updated_by,
  from_update,
}
use hyperswitch_card_vault.Storage.World.{World, Pools, kv_settings, get_conn, route_conn}
use hyperswitch_card_vault.Kv.Keys.{PartitionKey}
use hyperswitch_card_vault.Kv.Query.{
  QueryFragment, SerializableQuery, DatabaseOperation, generate_insert_query, generate_update_query,
  generate_delete_query,
}
use hyperswitch_card_vault.Kv.Wrapper.{KvStore, Serde}
use hyperswitch_card_vault.Kv.Memory.{Memory, memory_view, memory_conn, memory_IsRedis}
use hyperswitch_card_vault.Kv.Wrapper.{stream_of}
use hyperswitch_card_vault.Kv.Wrapper.Runs.{entry}
use hyperswitch_card_vault.Kv.Errors.{vault_of_kv}
use hyperswitch_card_vault.Kv.Resource.{KvResource}
use hyperswitch_card_vault.Kv.Resource.Insert.{insert_resource}
use hyperswitch_card_vault.Kv.Resource.Find.{find_resource_by_id}
use hyperswitch_card_vault.Kv.Resource.Mutate.{update_resource_by_id, delete_resource_by_id}
use hyperswitch_card_vault.Kv.Resource.RoundTrip.{
  insert_then_find, insert_duplicate, update_then_find, delete_then_find,
}
use hyperswitch_card_vault.Kv.Impls.{Table, DeletableTable, UpdatableTable}
use hyperswitch_card_vault.Kv.Impls.Vaults.{
  VaultPrimaryKey, vault_resource, vault_updatable, vault_deletable,
}

abbrev pub store : KvStore Memory
store = record {
  redis = some memory_conn;
  kv_config = record {
    drainer_stream_suffix = codes "stream";
    drainer_num_partitions = 4;
    ttl_for_kv = 900;
  };
  hex_encode = λ bytes. bytes;
  crc32 = λ text. 7;
  query_json = λ query. some query.sql;
  unix_timestamp = λ r. 1000;
}

abbrev pub pools : Pools (Unit {0})
pools = record { primary_pg_pool = λ d. true; replica_pg_pool = none }

abbrev pub row : Text → VaultInner
row content = record {
  id = 0;
  entity_id = codes "m";
  vault_id = codes "v";
  encrypted_data = content;
  created_at = 5;
  expires_at = none;
  updated_by = some StorageScheme.redis_kv;
}

-- The text of the rows of this test is their data.
abbrev pub serde : Serde VaultInner
serde = record { to_json = λ r. some r.encrypted_data; from_json = λ t. some (row t) }

abbrev fragment : Text → QueryFragment
fragment sql = record {
  to_sql = some sql;
  is_safe_to_cache_prepared = some true;
  collect_binds = some ([], []);
}

abbrev pub table : Table (Unit {0}) VaultNewInner VaultInner VaultPrimaryKey
table = record {
  insert = λ pool new d. (ok (inner_of_new_inner new), d);
  select = λ pool pk d. (err DieselError.not_found, d);
  insert_fragment = λ new. fragment (codes "INSERT");
}

abbrev pub updatable : UpdatableTable (Unit {0}) VaultUpdate VaultInner VaultPrimaryKey
updatable = record {
  update = λ pool update pk d. (err DieselError.not_found, d);
  update_fragment = λ update pk. fragment (codes "UPDATE");
}

abbrev pub deletable : DeletableTable (Unit {0}) VaultPrimaryKey
deletable = record {
  delete = λ pool pk d. (ok 0, d);
  delete_fragment = λ pk. fragment (codes "DELETE");
}

abbrev pub query : Text → DatabaseOperation → SerializableQuery
query sql operation = record {
  sql = sql;
  binds = [];
  metadata = [];
  safe_to_cache_prepared = true;
  entity_type = codes "vault";
  operation = operation;
}

abbrev pub empty : KvState → World Memory (Unit {0})
empty state = record {
  redis = record { up = true; cell = λ k f. none; entries = λ s. [] };
  db = tt;
  runtime_config = some (record { enable_kv = state; use_replica = true });
}

-- Redis has one row under every key.
abbrev pub full : KvState → World Memory (Unit {0})
full state = record (empty state) {
  redis = record { up = true; cell = λ k f. some (codes "x"); entries = λ s. [] };
}

abbrev pub new_row : VaultNewInner
new_row = record {
  vault_id = codes "v";
  entity_id = codes "m";
  encrypted_data = codes "data";
  created_at = 5;
  expires_at = none;
  updated_by = some StorageScheme.postgres_only;
}

abbrev pub pk : VaultPrimaryKey
pk = record { entity_id = codes "m"; vault_id = codes "v" }

abbrev pub key : PartitionKey
key = PartitionKey.vault (codes "m") (codes "v")

abbrev pub vaults :
    KvResource Memory (Unit {0}) VaultDbError Vault VaultNewInner VaultInner VaultPrimaryKey
vaults = vault_resource store pools serde table

abbrev pub W : Type 0
W = World Memory (Unit {0})

-- The entry of `sql`, which the test's clock dates.
abbrev OneEntry : Text → W → Type 0
OneEntry sql w = w.redis.entries (stream_of store key) ≡ entry store sql key w.redis ∷ []

insert_then_find_example :
    (w' : W) × (insert_resource store vaults new_row key (empty KvState.enabled)
      ≡ (ok (vault_of_inner (row (codes "data"))), w'))
    × (find_resource_by_id store vaults pk w' ≡ (ok (vault_of_inner (row (codes "data"))), w'))
    × (w'.db ≡ tt)
    × OneEntry (codes "INSERT") w'
unfolding kv_settings generate_insert_query set_updated_by inner_of_new_inner entry
insert_then_find_example =
    insert_then_find store vaults memory_view memory_conn memory_IsRedis refl new_row pk
      (empty KvState.enabled) (query (codes "INSERT") DatabaseOperation.insert) (codes "INSERT")
      (codes "data") refl refl refl refl refl refl refl

insert_duplicate_example :
    insert_resource store vaults new_row key (full KvState.enabled)
    ≡ (err VaultDbError.duplicate, full KvState.enabled)
unfolding kv_settings generate_insert_query set_updated_by inner_of_new_inner vault_of_kv
insert_duplicate_example =
    insert_duplicate store vaults memory_view memory_conn memory_IsRedis refl new_row key
      (full KvState.enabled) (query (codes "INSERT") DatabaseOperation.insert) (codes "INSERT")
      (codes "data") (codes "x") refl refl refl refl refl refl

abbrev pub changed : VaultUpdate
changed = record {
  encrypted_data = codes "more";
  expires_at = none;
  updated_by = StorageScheme.postgres_only;
}

update_then_find_example :
    (w' : W) × (update_resource_by_id store vaults
        (vault_updatable store pools serde table updatable)
        changed
        pk
        (full KvState.enabled)
      ≡ (ok (vault_of_inner (row (codes "more"))), w'))
    × (find_resource_by_id store vaults pk w' ≡ (ok (vault_of_inner (row (codes "more"))), w'))
    × (w'.db ≡ tt)
    × OneEntry (codes "UPDATE") w'
unfolding kv_settings generate_update_query from_update entry
update_then_find_example =
    update_then_find store vaults memory_view memory_conn memory_IsRedis refl
      (vault_updatable store pools serde table updatable) changed pk (full KvState.enabled)
      (query (codes "UPDATE") DatabaseOperation.update) (codes "UPDATE") (codes "x") (codes "more")
      (row (codes "x")) refl refl refl refl refl refl refl refl

delete_then_find_example :
    (w' : W) × (delete_resource_by_id store vaults
        (vault_deletable store pools serde table deletable)
        pk
        (full KvState.enabled)
      ≡ (ok 1, w'))
    × (find_resource_by_id store vaults pk w' ≡ (err VaultDbError.not_found_error, w'))
    × (w'.db ≡ tt)
    × OneEntry (codes "DELETE") w'
unfolding kv_settings generate_delete_query get_conn route_conn entry
delete_then_find_example =
    delete_then_find store vaults memory_view memory_conn memory_IsRedis refl
      (vault_deletable store pools serde table deletable) pk (full KvState.enabled)
      (query (codes "DELETE") DatabaseOperation.delete) (codes "DELETE") (codes "x") refl refl refl
      refl refl

-- ===== src/Kv/Impls/Lookups/Duplicates.antt =====
-- storage/kv/resource.rs and storage/kv/impls/reverse_lookup.rs: an insert whose reverse lookup record
-- is there already.
use hyperswitch_card_vault.Common.{◌≡◌, true, some, Text, codes, ok, err}
use hyperswitch_card_vault.Storage.Scheme.{StorageScheme, KvState}
use hyperswitch_card_vault.Storage.Rows.{ReverseLookup, ReverseLookupNew, reverse_lookup_of_new}
use hyperswitch_card_vault.Storage.World.{World, Pools, kv_settings}
use hyperswitch_card_vault.Kv.Errors.{KvError, reverse_lookup_of_kv}
use hyperswitch_card_vault.Kv.Keys.{PartitionKey, to_string}
use hyperswitch_card_vault.Kv.Query.{SerializableQuery, generate_insert_query}
use hyperswitch_card_vault.Kv.Redis.{RedisView, IsRedis}
use hyperswitch_card_vault.Kv.Wrapper.{RedisConn, KvStore, Serde}
use hyperswitch_card_vault.Kv.Resource.{KvResource, KvSecondaryLookupResource}
use hyperswitch_card_vault.Kv.Resource.Insert.{
  insert_resource_with_reverse_lookup, reverse_lookup_new,
}
use hyperswitch_card_vault.Kv.Resource.RoundTrip.{cell_of, insert_duplicate}
use hyperswitch_card_vault.Kv.Resource.Lookups.{lookup_failure}
use hyperswitch_card_vault.Kv.Impls.{Table}
use hyperswitch_card_vault.Kv.Impls.Lookups.{reverse_lookup_resource, insert_reverse_lookup}

module _ {R D : Type 0} (store : KvStore R) (V : RedisView R) (conn : RedisConn R)
    (redis : IsRedis V conn) (connected : store.redis ≡ some conn) (pools : Pools D)
    (lookup_serde : Serde ReverseLookup) (table : Table D ReverseLookupNew ReverseLookup Text) where
  -- With the KV layer enabled, on a reachable Redis that has the key of the row's reverse lookup record,
  -- whether or not it has that of the row, where the two drainer queries are built, that of the record
  -- becomes JSON, and so does the record: an insert with a reverse lookup is the error of the backend,
  -- not that of a duplicate, no entry goes to a drainer, and nothing changes.
  pub lookup_insert_duplicate :
      {Error Self DieselNew DieselEntity PrimaryKey LookupKey : Type 0}
      (M : KvResource R D Error Self DieselNew DieselEntity PrimaryKey)
      (L : KvSecondaryLookupResource R D Error Self DieselNew LookupKey) (diesel_new : DieselNew)
      (key : PartitionKey) (w : World R D) (q ql : SerializableQuery) (jl tl old : Text)
      → let N = reverse_lookup_resource store pools lookup_serde table in
        let irl = insert_reverse_lookup store pools lookup_serde table in
        let stamped = M.set_storage_scheme StorageScheme.redis_kv diesel_new in
        let lookup_id = L.get_lookup_key (L.get_reverse_lookup_key stamped key) in
        let lookup = reverse_lookup_new store M L irl lookup_id key in
        kv_settings w ≡ KvState.enabled
        → V.up w.redis ≡ true
        → cell_of store N V conn redis connected w (PartitionKey.reverse_lookup lookup_id)
          ≡ some old
        → M.generate_insert_drainer_query stamped ≡ ok q
        → generate_insert_query (codes "reverse_lookup") (table.insert_fragment lookup) ≡ ok ql
        → store.query_json ql ≡ some jl
        → lookup_serde.to_json (reverse_lookup_of_new lookup) ≡ some tl
        → insert_resource_with_reverse_lookup store M L irl diesel_new key w
          ≡ (err (M.of_kv KvError.backend), w)
  unfolding insert_reverse_lookup reverse_lookup_new
  lookup_insert_duplicate M L diesel_new key w q ql jl tl old on up there g gl jjl el =
      let N = reverse_lookup_resource store pools lookup_serde table in
      let irl = insert_reverse_lookup store pools lookup_serde table in
      let stamped = M.set_storage_scheme StorageScheme.redis_kv diesel_new in
      let lookup_id = L.get_lookup_key (L.get_reverse_lookup_key stamped key) in
      let lookup = reverse_lookup_new store M L irl lookup_id key in
      let record_key = PartitionKey.reverse_lookup lookup_id in
      lookup_failure store M L irl diesel_new key w w q
        (reverse_lookup_of_kv (KvError.duplicate_value (to_string store.hex_encode record_key))) on
        g
        (insert_duplicate store N V conn redis connected lookup record_key w ql jl tl old on up
          there gl jjl el)

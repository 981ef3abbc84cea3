-- ===== src/Kv/Resource/Lookups.antt =====
-- storage/kv/resource.rs: inserts and reads that go by a reverse lookup record.
use hyperswitch_card_vault.Common.{◌≡◌, ◌≢◌, ◌∙◌, true, false, some, Text, Result, ok, err, Exec}
use hyperswitch_card_vault.Error.Types.{ReverseLookupDbError}
use hyperswitch_card_vault.Error.Classify.{reverse_lookup_errors}
use hyperswitch_card_vault.Storage.Scheme.{StorageScheme, KvState}
use hyperswitch_card_vault.Storage.Rows.{ReverseLookup, ReverseLookupNew}
use hyperswitch_card_vault.Storage.World.{World, kv_settings}
use hyperswitch_card_vault.Kv.Errors.{KvError}
use hyperswitch_card_vault.Kv.Keys.{PartitionKey, to_string}
use hyperswitch_card_vault.Kv.Query.{SerializableQuery}
use hyperswitch_card_vault.Kv.Wrapper.{KvStore, KvOperation, KvResult, kv_wrapper}
use hyperswitch_card_vault.Kv.Resource.{
  KvResource, KvSecondaryLookupResource, scheme_for_insert, with_cell, read_value, key_str,
}
use hyperswitch_card_vault.Kv.Resource.Routing.{scheme_for_find_lem}
use hyperswitch_card_vault.Kv.Resource.Insert.{
  insert_lookup, insert_under, insert_resource_inner, insert_resource_with_reverse_lookup,
  reverse_lookup_new,
}
use hyperswitch_card_vault.Kv.Resource.Find.{
  optional, find_through, find_by_lookup_under, find_resource_by_lookup_id,
  find_optional_resource_by_lookup_id,
}

module _ {R D Error Self DieselNew DieselEntity PrimaryKey LookupKey : Type 0} (store : KvStore R)
    (M : KvResource R D Error Self DieselNew DieselEntity PrimaryKey)
    (L : KvSecondaryLookupResource R D Error Self DieselNew LookupKey) where
  -- With the KV layer enabled, where the drainer's query is built and the insert of the reverse lookup
  -- record fails, an insert with a reverse lookup is the error of the backend, also where the record
  -- fails as a duplicate, and the row is not written: the world is what the failed insert left.
  pub lookup_failure :
      (insert_reverse_lookup : ReverseLookupNew
        → Exec (World R D) ReverseLookupDbError ReverseLookup)
      (diesel_new : DieselNew) (key : PartitionKey) (w w' : World R D) (q : SerializableQuery)
      (e : ReverseLookupDbError)
      → let stamped = M.set_storage_scheme StorageScheme.redis_kv diesel_new in
        kv_settings w ≡ KvState.enabled
        → M.generate_insert_drainer_query stamped ≡ ok q
        → insert_reverse_lookup
            (reverse_lookup_new store M L insert_reverse_lookup
              (L.get_lookup_key (L.get_reverse_lookup_key stamped key))
              key)
            w
          ≡ (err e, w')
        → insert_resource_with_reverse_lookup store M L insert_reverse_lookup diesel_new key w
          ≡ (err (M.of_kv KvError.backend), w')
  unfolding insert_resource_with_reverse_lookup insert_resource_inner insert_under insert_lookup
      scheme_for_insert
  lookup_failure irl diesel_new key w w' q e on g failed = simp (on, g, failed)

  module _ (find_by_lookup_id : Text → Exec (World R D) ReverseLookupDbError ReverseLookup)
      (lookup_key : LookupKey) (w w1 : World R D) (on : kv_settings w ≢ KvState.disabled) where
    find_by_lookup_on :
        (a : Result ReverseLookupDbError ReverseLookup)
        → find_by_lookup_id (L.get_lookup_key lookup_key) w ≡ (a, w1)
        → find_resource_by_lookup_id store M L find_by_lookup_id lookup_key w
          ≡ find_through store M L find_by_lookup_id lookup_key a w1
    unfolding find_resource_by_lookup_id find_by_lookup_under
    find_by_lookup_on a h = rw (
      find_resource_by_lookup_id,
      scheme_for_find_lem (kv_settings w) on,
      find_by_lookup_under,
      h,
    )

    -- With the KV layer enabled or soft-killed, a read by a secondary key whose reverse lookup record is
    -- found, and whose row is in Redis under the record's partition key, is that row.
    pub find_by_lookup_hit :
        (lookup : ReverseLookup) (v : DieselEntity) (r : R)
        → find_by_lookup_id (L.get_lookup_key lookup_key) w ≡ (ok lookup, w1)
        → kv_wrapper store M.serde
            (KvOperation.hget lookup.partition_key)
            (PartitionKey.combination_key lookup.partition_key)
            w1.redis
          ≡ (ok (KvResult.hget v), r)
        → find_optional_resource_by_lookup_id store M L find_by_lookup_id lookup_key w
          ≡ (ok (some (M.self_of_entity v)), record w1 { redis = r })
    unfolding find_optional_resource_by_lookup_id optional find_through with_cell read_value key_str
        to_string
    find_by_lookup_hit lookup v r h hit = rw (find_by_lookup_on (ok lookup) h, hit)

    -- With the KV layer enabled or soft-killed, a read by a secondary key whose reverse lookup record is
    -- missing is the database's read by that key, in the world that the first read left.
    pub find_by_lookup_fallback :
        (e : ReverseLookupDbError)
        → reverse_lookup_errors.is_not_found e ≡ true
        → find_by_lookup_id (L.get_lookup_key lookup_key) w ≡ (err e, w1)
        → find_resource_by_lookup_id store M L find_by_lookup_id lookup_key w
          ≡ L.storage_find_by_lookup lookup_key w1
    unfolding find_through
    find_by_lookup_fallback e missing h = find_by_lookup_on (err e) h ∙ rw (find_through, missing)

    -- With the KV layer enabled or soft-killed, a read by a secondary key whose reverse lookup record
    -- cannot be read is the error of the backend, and the row is looked for nowhere: the world is what
    -- the first read left.
    pub find_by_lookup_failure :
        (e : ReverseLookupDbError)
        → reverse_lookup_errors.is_not_found e ≡ false
        → find_by_lookup_id (L.get_lookup_key lookup_key) w ≡ (err e, w1)
        → find_resource_by_lookup_id store M L find_by_lookup_id lookup_key w
          ≡ (err (M.of_kv KvError.backend), w1)
    unfolding find_through
    find_by_lookup_failure e other h = find_by_lookup_on (err e) h ∙ rw (find_through, other)

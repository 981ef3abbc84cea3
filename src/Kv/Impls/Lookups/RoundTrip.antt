-- ===== src/Kv/Impls/Lookups/RoundTrip.antt =====
-- storage/kv/resource.rs and storage/kv/impls/reverse_lookup.rs: a row that was inserted with a reverse
-- lookup record is found by its secondary key.
use hyperswitch_card_vault.Common.{
  ◌≡◌, ◌≢◌, ◌∙◌, refl, ap, sym, true, none, some, Text, codes, ok, Exec, arith,
}
use hyperswitch_card_vault.Storage.Scheme.{StorageScheme, KvState, scheme_to_string}
use hyperswitch_card_vault.Storage.Rows.{ReverseLookup, ReverseLookupNew, reverse_lookup_of_new}
use hyperswitch_card_vault.Storage.World.{World, Pools, kv_settings}
use hyperswitch_card_vault.Kv.Keys.{PartitionKey, to_string}
use hyperswitch_card_vault.Kv.Query.{SerializableQuery, generate_insert_query}
use hyperswitch_card_vault.Kv.Redis.{RedisView, IsRedis}
use hyperswitch_card_vault.Kv.Wrapper.{RedisConn, KvStore, Serde, KvOperation, try_into_hsetnx}
use hyperswitch_card_vault.Kv.Wrapper.Runs.{pushed, hget-hit, hset_nx-new}
use hyperswitch_card_vault.Kv.Resource.{
  KvResource, KvSecondaryLookupResource, scheme_for_insert, key_str,
}
use hyperswitch_card_vault.Kv.Resource.Insert.{
  inserted, insert_under, insert_resource_inner, insert_resource, insert_lookup,
  insert_resource_with_reverse_lookup, reverse_lookup_new,
}
use hyperswitch_card_vault.Kv.Resource.Find.{
  find_resource_by_id, find_optional_resource_by_lookup_id,
}
use hyperswitch_card_vault.Kv.Resource.RoundTrip.{
  cell_of, kv_write_lem, find-hit, kv_settings-redis,
}
use hyperswitch_card_vault.Kv.Resource.Lookups.{find_by_lookup_hit}
use hyperswitch_card_vault.Kv.Impls.{Table}
use hyperswitch_card_vault.Kv.Impls.Lookups.{
  reverse_lookup_resource, insert_reverse_lookup, find_by_lookup_id,
}

enabled_not_disabled : {s : KvState} → s ≡ KvState.enabled → s ≢ KvState.disabled
enabled_not_disabled on off = ground arith

module _ {R D : Type 0} (store : KvStore R) (V : RedisView R) (conn : RedisConn R)
    (redis : IsRedis V conn) (connected : store.redis ≡ some conn) where
  module _ {Error Self DieselNew DieselEntity PrimaryKey : Type 0}
      (M : KvResource R D Error Self DieselNew DieselEntity PrimaryKey) where
    -- The world after a new row under a key.
    written : World R D → PartitionKey → Text → Text → World R D
    written w key json t = record w {
      redis =
          pushed store V conn redis connected json key
            (V.put (to_string store.hex_encode key) (to_string store.hex_encode key) t w.redis);
    }

    insert_writes :
        (new : DieselNew) (key : PartitionKey) (w : World R D) (q : SerializableQuery)
        (json t : Text) (extra : DieselNew → PartitionKey → Exec (World R D) Error (Unit {0}))
        (w1 : World R D)
        → let stamped = M.set_storage_scheme StorageScheme.redis_kv new in
          kv_settings w ≡ KvState.enabled
          → M.generate_insert_drainer_query stamped ≡ ok q
          → store.query_json q ≡ some json
          → extra stamped key w ≡ (ok tt, w1)
          → V.up w1.redis ≡ true
          → cell_of store M V conn redis connected w1 key ≡ none
          → M.serde.to_json (M.entity_of_new stamped) ≡ some t
          → insert_resource_inner store M new key extra w
            ≡ (ok (M.entity_of_new stamped), written w1 key json t)
    unfolding insert_resource_inner insert_under scheme_for_insert inserted try_into_hsetnx key_str
        written
    insert_writes new key w q json t extra w1 on g j first up c e =
        let k = to_string store.hex_encode key in
        let row = M.entity_of_new (M.set_storage_scheme StorageScheme.redis_kv new) in
        simp (
          on,
          g,
          first,
          kv_write_lem store M V conn redis connected (KvOperation.hset_nx k row q) key w1 (
              hset_nx-new store V conn redis connected M.serde q json key j k t row w1.redis up e
                c),
        )

    written-cell :
        (w : World R D) (key : PartitionKey) (json t : Text)
        → cell_of store M V conn redis connected (written w key json t) key ≡ some t
    unfolding written pushed
    written-cell w key json t =
        redis.cell-push _ _
          (V.put (to_string store.hex_encode key) (to_string store.hex_encode key) t w.redis) _ _
        ∙ redis.cell-put (to_string store.hex_encode key) (to_string store.hex_encode key) t w.redis

    written-other :
        (w : World R D) (key other : PartitionKey) (json t : Text)
        → to_string store.hex_encode key ≢ to_string store.hex_encode other
        → cell_of store M V conn redis connected (written w key json t) other
          ≡ cell_of store M V conn redis connected w other
    unfolding written pushed
    written-other w key other json t ne =
        redis.cell-push _ _
          (V.put (to_string store.hex_encode key) (to_string store.hex_encode key) t w.redis) _ _
        ∙ redis.cell-put-other (to_string store.hex_encode key) (to_string store.hex_encode key) t
            w.redis _ _ ne

    written-up :
        (w : World R D) (key : PartitionKey) (json t : Text)
        → V.up w.redis ≡ true
        → V.up (written w key json t).redis ≡ true
    unfolding written pushed
    written-up w key json t up = redis.up-push _ _ _ (redis.up-put _ _ t w.redis up)

    written-settings :
        (w : World R D) (key : PartitionKey) (json t : Text)
        → kv_settings (written w key json t) ≡ kv_settings w
    unfolding written
    written-settings w key json t = kv_settings-redis store M V conn redis connected w _

    written-db :
        (w : World R D) (key : PartitionKey) (json t : Text) → (written w key json t).db ≡ w.db
    unfolding written
    written-db w key json t = refl

  module _ (pools : Pools D) (lookup_serde : Serde ReverseLookup)
      (table : Table D ReverseLookupNew ReverseLookup Text) where
    insert_lookup_writes :
        (new : ReverseLookupNew) (w : World R D) (q : SerializableQuery) (json t : Text)
        → let N = reverse_lookup_resource store pools lookup_serde table in
          let key = PartitionKey.reverse_lookup new.lookup_id in
          kv_settings w ≡ KvState.enabled
          → V.up w.redis ≡ true
          → cell_of store N V conn redis connected w key ≡ none
          → new.updated_by ≡ scheme_to_string StorageScheme.redis_kv
          → generate_insert_query (codes "reverse_lookup") (table.insert_fragment new) ≡ ok q
          → store.query_json q ≡ some json
          → lookup_serde.to_json (reverse_lookup_of_new new) ≡ some t
          → insert_reverse_lookup store pools lookup_serde table new w
            ≡ (ok (reverse_lookup_of_new new), written N w key json t)
    unfolding insert_reverse_lookup insert_resource
    insert_lookup_writes new w q json t on up c by g j e =
        let N = reverse_lookup_resource store pools lookup_serde table in
        let same : record new { updated_by = scheme_to_string StorageScheme.redis_kv } ≡ new =
          ap (λ u. record new { updated_by = u }) (sym by) in
        let wrote =
          insert_writes N new (PartitionKey.reverse_lookup new.lookup_id) w q json t
            (λ _ _ u. (ok tt, u)) w on
            (ap (λ n. generate_insert_query (codes "reverse_lookup") (table.insert_fragment n)) same
              ∙ g)
            j refl up c (ap (λ n. lookup_serde.to_json (reverse_lookup_of_new n)) same ∙ e) in
        simp (wrote, same)

    -- With the KV layer enabled, on a reachable Redis that has neither the row's key nor that of its
    -- reverse lookup record, which differ, where the two drainer queries are built and become JSON, and
    -- the row and the record become text that reads back as they are: an insert with a reverse lookup
    -- answers the row, stamped as written by Redis; a read by the secondary key then finds the row, and
    -- so does a read by the primary key; and the database is as before.
    pub lookup_insert_then_find :
        {Error Self DieselNew DieselEntity PrimaryKey LookupKey : Type 0}
        (M : KvResource R D Error Self DieselNew DieselEntity PrimaryKey)
        (L : KvSecondaryLookupResource R D Error Self DieselNew LookupKey) (diesel_new : DieselNew)
        (pk : PrimaryKey) (w : World R D) (q ql : SerializableQuery) (json t jl tl : Text)
        → let N = reverse_lookup_resource store pools lookup_serde table in
          let irl = insert_reverse_lookup store pools lookup_serde table in
          let fl = find_by_lookup_id store pools lookup_serde table in
          let key = M.get_partition_key pk in
          let stamped = M.set_storage_scheme StorageScheme.redis_kv diesel_new in
          let row = M.entity_of_new stamped in
          let lookup_key = L.get_reverse_lookup_key stamped key in
          let lookup = reverse_lookup_new store M L irl (L.get_lookup_key lookup_key) key in
          let record_key = PartitionKey.reverse_lookup (L.get_lookup_key lookup_key) in
          kv_settings w ≡ KvState.enabled
          → V.up w.redis ≡ true
          → cell_of store M V conn redis connected w key ≡ none
          → cell_of store N V conn redis connected w record_key ≡ none
          → to_string store.hex_encode record_key ≢ to_string store.hex_encode key
          → M.generate_insert_drainer_query stamped ≡ ok q
          → store.query_json q ≡ some json
          → generate_insert_query (codes "reverse_lookup") (table.insert_fragment lookup) ≡ ok ql
          → store.query_json ql ≡ some jl
          → M.serde.to_json row ≡ some t
          → M.serde.from_json t ≡ some row
          → lookup_serde.to_json (reverse_lookup_of_new lookup) ≡ some tl
          → lookup_serde.from_json tl ≡ some (reverse_lookup_of_new lookup)
          → (w' : World R D) × (insert_resource_with_reverse_lookup store M L irl diesel_new key w
              ≡ (ok (M.self_of_entity row), w'))
            × (find_optional_resource_by_lookup_id store M L fl lookup_key w'
                ≡ (ok (some (M.self_of_entity row)), w'))
            × (find_resource_by_id store M pk w' ≡ (ok (M.self_of_entity row), w'))
            × (w'.db ≡ w.db)
    unfolding insert_resource_with_reverse_lookup insert_lookup find_by_lookup_id
        find_resource_by_id reverse_lookup_new reverse_lookup_of_new key_str to_string
    lookup_insert_then_find M L diesel_new pk w q ql json t jl tl on up c cl ne g j gl jjl e d el
          dl =
        let N = reverse_lookup_resource store pools lookup_serde table in
        let irl = insert_reverse_lookup store pools lookup_serde table in
        let fl = find_by_lookup_id store pools lookup_serde table in
        let key = M.get_partition_key pk in
        let k = to_string store.hex_encode key in
        let stamped = M.set_storage_scheme StorageScheme.redis_kv diesel_new in
        let row = M.entity_of_new stamped in
        let lookup_key = L.get_reverse_lookup_key stamped key in
        let lookup = reverse_lookup_new store M L irl (L.get_lookup_key lookup_key) key in
        let record_key = PartitionKey.reverse_lookup (L.get_lookup_key lookup_key) in
        let w1 = written N w record_key jl tl in
        let w' = written M w1 key json t in
        let recorded = insert_lookup_writes lookup w ql jl tl on up cl refl gl jjl el in
        let up1 = written-up N w record_key jl tl up in
        let up' = written-up M w1 key json t up1 in
        let on' = written-settings M w1 key json t ∙ written-settings N w record_key jl tl ∙ on in
        let empty = written-other N w record_key key jl tl ne ∙ c in
        let stays =
          written-other M w1 key record_key json t (λ same. ne (sym same))
          ∙ written-cell N w record_key jl tl in
        let wrote =
          insert_writes M diesel_new key w q json t (insert_lookup store M L irl) w1 on g j
            (simp recorded) up1 empty e in
        let there = written-cell M w1 key json t in
        (
          w',
          simp wrote,
          find_by_lookup_hit store M L fl lookup_key w' w' (enabled_not_disabled on')
              (reverse_lookup_of_new lookup) row w'.redis
              (simp (
                find-hit store N V conn redis connected (L.get_lookup_key lookup_key) w' tl
                  (reverse_lookup_of_new lookup) on' up' stays dl))
              (hget-hit store V conn redis connected M.serde (PartitionKey.combination_key k) k t
                row w'.redis up' there d),
          simp (find-hit store M V conn redis connected pk w' t row on' up' there d),
          written-db M w1 key json t ∙ written-db N w record_key jl tl,
        )

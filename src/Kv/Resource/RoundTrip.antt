-- ===== src/Kv/Resource/RoundTrip.antt =====
-- storage/kv/resource.rs: what a later read finds, after a write through a reachable Redis.
use hyperswitch_card_vault.Common.{
  ◌≡◌, refl, ap, ◌∙◌, true, [], ◌∷◌, ◌++◌, Option, none, some, Text, ok, err, Exec, map_exec,
}
use hyperswitch_card_vault.Storage.Scheme.{StorageScheme, KvState}
use hyperswitch_card_vault.Storage.World.{World, kv_settings}
use hyperswitch_card_vault.Kv.Errors.{KvError}
use hyperswitch_card_vault.Kv.Keys.{PartitionKey, to_string}
use hyperswitch_card_vault.Kv.Query.{SerializableQuery}
use hyperswitch_card_vault.Kv.Redis.{RedisView, IsRedis}
use hyperswitch_card_vault.Kv.Wrapper.{
  RedisConn, KvStore, KvOperation, KvResult, try_into_hsetnx, try_into_hset, try_into_hdel,
  stream_of, kv_wrapper,
}
use hyperswitch_card_vault.Kv.Wrapper.Runs.{
  entry, pushed, hget-hit, hget-miss, hset-runs, hset_nx-new, hset_nx-old, hdel-runs,
}
use hyperswitch_card_vault.Kv.Resource.{
  KvResource, KvDeletableResource, KvUpdatableResource, scheme_for_insert, scheme_for_find,
  scheme_for_mutate, decide_storage_scheme_for_mutate_operation, is_redis_not_found, with_cell,
  read_value, key_str, kv_write,
}
use hyperswitch_card_vault.Kv.Resource.Insert.{
  inserted, insert_under, insert_resource_inner, insert_resource,
}
use hyperswitch_card_vault.Kv.Resource.Find.{
  find_under, find_resource_by_id_inner, find_resource_by_id,
}
use hyperswitch_card_vault.Kv.Resource.Mutate.{
  current_row, update_under, update_resource_by_id, delete_under, delete_resource_by_id_inner,
  delete_resource_by_id,
}

module _ {R D Error Self DieselNew DieselEntity PrimaryKey : Type 0} (store : KvStore R)
    (M : KvResource R D Error Self DieselNew DieselEntity PrimaryKey) (V : RedisView R)
    (conn : RedisConn R) (redis : IsRedis V conn) (connected : store.redis ≡ some conn) where
  abbrev pub cell_of : World R D → PartitionKey → Option Text
  cell_of w key = V.cell w.redis (to_string store.hex_encode key) (to_string store.hex_encode key)

  pub kv_write_lem :
      (op : KvOperation DieselEntity) (key : PartitionKey) (w : World R D)
      {a : KvResult DieselEntity} {r : R}
      → kv_wrapper store M.serde op key w.redis ≡ (ok a, r)
      → kv_write store M op key w ≡ (ok a, record w { redis = r })
  unfolding kv_write
  kv_write_lem op key w h = rw h

  -- A read of a cell that holds the text of a row.
  with_cell-hit :
      {A : Type 0} (key : PartitionKey) (hit : DieselEntity → Exec (World R D) Error A)
      (miss : Exec (World R D) Error A) (w : World R D) (t : Text) (v : DieselEntity)
      → V.up w.redis ≡ true
      → cell_of w key ≡ some t
      → M.serde.from_json t ≡ some v
      → with_cell store M key hit miss w ≡ hit v w
  unfolding with_cell read_value key_str
  with_cell-hit key hit miss w t v up c j = rw (
      hget-hit store V conn redis connected M.serde key (to_string store.hex_encode key) t v w.redis
        up c j)

  with_cell-miss :
      {A : Type 0} (key : PartitionKey) (hit : DieselEntity → Exec (World R D) Error A)
      (miss : Exec (World R D) Error A) (w : World R D)
      → V.up w.redis ≡ true
      → cell_of w key ≡ none
      → with_cell store M key hit miss w ≡ miss w
  unfolding with_cell read_value key_str is_redis_not_found
  with_cell-miss key hit miss w up c = rw (
      hget-miss store V conn redis connected M.serde key (to_string store.hex_encode key) w.redis up
        c)

  -- Redis' part of the world is not the runtime configuration.
  pub kv_settings-redis :
      (w : World R D) (r : R) → kv_settings (record w { redis = r }) ≡ kv_settings w
  unfolding kv_settings
  kv_settings-redis w r = refl

  pub find-hit :
      (pk : PrimaryKey) (w : World R D) (t : Text) (v : DieselEntity)
      → kv_settings w ≡ KvState.enabled
      → V.up w.redis ≡ true
      → cell_of w (M.get_partition_key pk) ≡ some t
      → M.serde.from_json t ≡ some v
      → find_resource_by_id_inner store M pk w ≡ (ok v, w)
  unfolding find_resource_by_id_inner find_under scheme_for_find
  find-hit pk w t v on up c j =
      simp (on, with_cell-hit (M.get_partition_key pk) _ (M.storage_find pk) w t v up c j)

  -- With the KV layer enabled, on a reachable Redis that has no row under the key, where the drainer's
  -- query is built and becomes JSON, and the row becomes text that reads back as the row: an insert
  -- answers the row, stamped as written by Redis, and a read under the key then finds it; the database
  -- is as before; and the stream of the key's shard has one entry more, that of the query.
  pub insert_then_find :
      (diesel_new : DieselNew) (pk : PrimaryKey) (w : World R D) (q : SerializableQuery)
      (json t : Text)
      → let key = M.get_partition_key pk in
        let stamped = M.set_storage_scheme StorageScheme.redis_kv diesel_new in
        let row = M.entity_of_new stamped in
        let after =
          V.put (to_string store.hex_encode key) (to_string store.hex_encode key) t w.redis in
        kv_settings w ≡ KvState.enabled
        → V.up w.redis ≡ true
        → cell_of w key ≡ none
        → M.generate_insert_drainer_query stamped ≡ ok q
        → store.query_json q ≡ some json
        → M.serde.to_json row ≡ some t
        → M.serde.from_json t ≡ some row
        → (w' : World R D) × (insert_resource store M diesel_new key w
            ≡ (ok (M.self_of_entity row), w'))
          × (find_resource_by_id store M pk w' ≡ (ok (M.self_of_entity row), w'))
          × (w'.db ≡ w.db)
          × (V.entries w'.redis (stream_of store key)
              ≡ V.entries w.redis (stream_of store key) ++ (entry store json key after ∷ []))
  unfolding insert_resource insert_resource_inner insert_under inserted try_into_hsetnx key_str
      scheme_for_insert find_resource_by_id pushed
  insert_then_find diesel_new pk w q json t on up c g j e d =
      let key = M.get_partition_key pk in
      let k = to_string store.hex_encode key in
      let row = M.entity_of_new (M.set_storage_scheme StorageScheme.redis_kv diesel_new) in
      let after = V.put k k t w.redis in
      let w' : World R D = record w {
        redis = pushed store V conn redis connected json key after;
      } in
      let wrote =
        kv_write_lem (KvOperation.hset_nx k row q) key w
          (hset_nx-new store V conn redis connected M.serde q json key j k t row w.redis up e c) in
      (
        w',
        simp (on, g, wrote),
        simp (
            find-hit pk w' t row (kv_settings-redis w w'.redis ∙ on)
              (redis.up-push _ _ after (redis.up-put k k t w.redis up))
              (redis.cell-push _ _ after k k ∙ redis.cell-put k k t w.redis) d),
        refl,
        redis.entries-push _ _ after
            ∙ ap (λ es. es ++ (entry store json key after ∷ []))
                (redis.entries-put k k t w.redis _),
      )

  -- With the KV layer enabled, on a reachable Redis that has a row under the key, where the drainer's
  -- query is built and becomes JSON, and the row becomes text: an insert answers the error of a
  -- duplicate of the key and changes nothing.
  pub insert_duplicate :
      (diesel_new : DieselNew) (key : PartitionKey) (w : World R D) (q : SerializableQuery)
      (json t old : Text)
      → let stamped = M.set_storage_scheme StorageScheme.redis_kv diesel_new in
        kv_settings w ≡ KvState.enabled
        → V.up w.redis ≡ true
        → cell_of w key ≡ some old
        → M.generate_insert_drainer_query stamped ≡ ok q
        → store.query_json q ≡ some json
        → M.serde.to_json (M.entity_of_new stamped) ≡ some t
        → insert_resource store M diesel_new key w
          ≡ (err (M.of_kv (KvError.duplicate_value (to_string store.hex_encode key))), w)
  unfolding insert_resource insert_resource_inner insert_under inserted try_into_hsetnx key_str
      scheme_for_insert
  insert_duplicate diesel_new key w q json t old on up c g j e =
      let k = to_string store.hex_encode key in
      let row = M.entity_of_new (M.set_storage_scheme StorageScheme.redis_kv diesel_new) in
      simp (
        on,
        g,
        kv_write_lem (KvOperation.hset_nx k row q) key w (
            hset_nx-old store V conn redis connected M.serde q json key j k t row w.redis up e old
              c),
      )

  -- With the KV layer enabled, on a reachable Redis that has a row under the key, where the drainer's
  -- query is built and becomes JSON, and the new row becomes text that reads back as it: an update
  -- answers the row with the update applied, stamped as written by Redis, and a read under the key then
  -- finds it; the database is as before; and the stream of the key's shard has one entry more, that of
  -- the query.
  pub update_then_find :
      {DieselUpdate : Type 0}
      (U : KvUpdatableResource R D Error Self DieselUpdate DieselEntity PrimaryKey)
      (update : DieselUpdate) (pk : PrimaryKey) (w : World R D) (q : SerializableQuery)
      (json old t : Text) (current : DieselEntity)
      → let key = M.get_partition_key pk in
        let stamped = U.set_update_storage_scheme StorageScheme.redis_kv update in
        let row = U.apply_update stamped current in
        let after =
          V.put (to_string store.hex_encode key) (to_string store.hex_encode key) t w.redis in
        kv_settings w ≡ KvState.enabled
        → V.up w.redis ≡ true
        → cell_of w key ≡ some old
        → M.serde.from_json old ≡ some current
        → U.generate_update_drainer_query stamped pk ≡ ok q
        → store.query_json q ≡ some json
        → M.serde.to_json row ≡ some t
        → M.serde.from_json t ≡ some row
        → (w' : World R D) × (update_resource_by_id store M U update pk w
            ≡ (ok (M.self_of_entity row), w'))
          × (find_resource_by_id store M pk w' ≡ (ok (M.self_of_entity row), w'))
          × (w'.db ≡ w.db)
          × (V.entries w'.redis (stream_of store key)
              ≡ V.entries w.redis (stream_of store key) ++ (entry store json key after ∷ []))
  unfolding update_resource_by_id decide_storage_scheme_for_mutate_operation scheme_for_mutate
      update_under current_row try_into_hset key_str find_resource_by_id pushed
  update_then_find U update pk w q json old t current on up c dold g j e d =
      let key = M.get_partition_key pk in
      let k = to_string store.hex_encode key in
      let row =
        U.apply_update (U.set_update_storage_scheme StorageScheme.redis_kv update) current in
      let after = V.put k k t w.redis in
      let w' : World R D = record w {
        redis = pushed store V conn redis connected json key after;
      } in
      let wrote =
        kv_write_lem (KvOperation.hset k row q) key w
          (hset-runs store V conn redis connected M.serde q json key j k t row w.redis up e) in
      (
        w',
        simp (on, find-hit pk w old current on up c dold, g, wrote),
        simp (
            find-hit pk w' t row (kv_settings-redis w w'.redis ∙ on)
              (redis.up-push _ _ after (redis.up-put k k t w.redis up))
              (redis.cell-push _ _ after k k ∙ redis.cell-put k k t w.redis) d),
        refl,
        redis.entries-push _ _ after
            ∙ ap (λ es. es ++ (entry store json key after ∷ []))
                (redis.entries-put k k t w.redis _),
      )

  -- With the KV layer enabled, on a reachable Redis that has a row under the key, where the drainer's
  -- query is built and becomes JSON: a delete answers one row; the database is as before; the stream of
  -- the key's shard has one entry more, that of the query; and a read under the key is then the
  -- database's.
  pub delete_then_find :
      (X : KvDeletableResource R D Error PrimaryKey) (pk : PrimaryKey) (w : World R D)
      (q : SerializableQuery) (json old : Text)
      → let key = M.get_partition_key pk in
        let after =
          V.drop (to_string store.hex_encode key) (to_string store.hex_encode key) w.redis in
        kv_settings w ≡ KvState.enabled
        → V.up w.redis ≡ true
        → cell_of w key ≡ some old
        → X.generate_delete_drainer_query pk ≡ ok q
        → store.query_json q ≡ some json
        → (w' : World R D) × (delete_resource_by_id store M X pk w ≡ (ok 1, w'))
          × (find_resource_by_id store M pk w' ≡ map_exec M.self_of_entity (M.storage_find pk) w')
          × (w'.db ≡ w.db)
          × (V.entries w'.redis (stream_of store key)
              ≡ V.entries w.redis (stream_of store key) ++ (entry store json key after ∷ []))
  unfolding delete_resource_by_id delete_resource_by_id_inner
      decide_storage_scheme_for_mutate_operation scheme_for_mutate delete_under try_into_hdel
      key_str find_resource_by_id find_resource_by_id_inner find_under scheme_for_find pushed
  delete_then_find X pk w q json old on up c g j =
      let key = M.get_partition_key pk in
      let k = to_string store.hex_encode key in
      let after = V.drop k k w.redis in
      let w' : World R D = record w {
        redis = pushed store V conn redis connected json key after;
      } in
      let wrote =
        kv_write_lem (KvOperation.hdel k q) key w
          (hdel-runs store V conn redis connected M.serde q json key k old w.redis j up c) in
      (
        w',
        simp (on, g, wrote),
        simp (
          kv_settings-redis w w'.redis,
          on,
          with_cell-miss key (λ v. λ u. (ok v, u)) (M.storage_find pk) w'
              (redis.up-push _ _ after (redis.up-drop k k w.redis up))
              (redis.cell-push _ _ after k k ∙ redis.cell-drop k k w.redis),
        ),
        refl,
        redis.entries-push _ _ after
            ∙ ap (λ es. es ++ (entry store json key after ∷ [])) (redis.entries-drop k k w.redis _),
      )

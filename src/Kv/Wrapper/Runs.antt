-- ===== src/Kv/Wrapper/Runs.antt =====
-- storage/kv/wrapper.rs: one operation on a reachable Redis.
use hyperswitch_card_vault.Common.{◌≡◌, true, List, [], ◌∷◌, none, some, Text, codes, ok, err}
use hyperswitch_card_vault.Kv.Errors.{RedisError, redis_error_from_ref}
use hyperswitch_card_vault.Kv.Keys.{PartitionKey, to_string, decimal}
use hyperswitch_card_vault.Kv.Query.{SerializableQuery, to_field_value_pairs}
use hyperswitch_card_vault.Kv.Redis.{RedisView, IsRedis}
use hyperswitch_card_vault.Kv.Wrapper.{
  RedisConn, KvStore, Serde, KvOperation, KvResult, HsetnxReply, request_id, entry_fields,
  stream_of, push_to_drainer_stream, push_if_set, run_operation, kv_wrapper,
}

-- The entry of a query whose JSON text is `json`.
unfoldable pub entry : {R : Type 0} → KvStore R → Text → PartitionKey → R → List (Text × Text)
entry store json key r =
    (codes "query", json)
    ∷ (codes "global_id", to_string store.hex_encode key)
    ∷ (codes "request_id", request_id)
    ∷ (codes "pushed_at", decimal (store.unix_timestamp r))
    ∷ []

module _ {R : Type 0} (store : KvStore R) (V : RedisView R) (conn : RedisConn R)
    (redis : IsRedis V conn) (connected : store.redis ≡ some conn) where
  unfoldable pub pushed : Text → PartitionKey → R → R
  pushed json key r = V.push (stream_of store key) (entry store json key r) r

  entry_fields_lem :
      (q : SerializableQuery) (json : Text) (key : PartitionKey) (r : R)
      → store.query_json q ≡ some json
      → entry_fields store q key r ≡ (ok (entry store json key r), r)
  unfolding entry_fields to_field_value_pairs entry
  entry_fields_lem q json key r j = cc

  pub push-runs :
      (q : SerializableQuery) (json : Text) (key : PartitionKey) (r : R)
      → V.up r ≡ true
      → store.query_json q ≡ some json
      → push_to_drainer_stream store q key r ≡ (ok tt, pushed json key r)
  unfolding push_to_drainer_stream pushed
  push-runs q json key r up j = simp (
    connected,
    entry_fields_lem q json key r j,
    redis.append (stream_of store key) (entry store json key r) r up,
  )

  module _ {S : Type 0} (serde : Serde S) where
    pub hget-hit :
        (key : PartitionKey) (f t : Text) (v : S) (r : R)
        → V.up r ≡ true
        → V.cell r (to_string store.hex_encode key) f ≡ some t
        → serde.from_json t ≡ some v
        → kv_wrapper store serde (KvOperation.hget f) key r ≡ (ok (KvResult.hget v), r)
    unfolding kv_wrapper run_operation
    hget-hit key f t v r up c j =
        simp (connected, redis.get-hit serde (to_string store.hex_encode key) f t v r up c j)

    pub hget-miss :
        (key : PartitionKey) (f : Text) (r : R)
        → V.up r ≡ true
        → V.cell r (to_string store.hex_encode key) f ≡ none
        → kv_wrapper store serde (KvOperation.hget f) key r ≡ (err RedisError.not_found, r)
    unfolding kv_wrapper run_operation redis_error_from_ref
    hget-miss key f r up c =
        simp (connected, redis.get-miss serde (to_string store.hex_encode key) f r up c)

    module _ (q : SerializableQuery) (json : Text) (key : PartitionKey)
        (j : store.query_json q ≡ some json) (f t : Text) (v : S) (r : R) (up : V.up r ≡ true)
        (e : serde.to_json v ≡ some t) where
      pub hset-runs :
          kv_wrapper store serde (KvOperation.hset f v q) key r
          ≡ (ok KvResult.hset, pushed json key (V.put (to_string store.hex_encode key) f t r))
      unfolding kv_wrapper run_operation
      hset-runs =
          let k = to_string store.hex_encode key in
          simp (
            connected,
            e,
            redis.set k f t (some store.kv_config.ttl_for_kv) r up,
            push-runs q json key (V.put k f t r) (redis.up-put k f t r up) j,
          )

      pub hset_nx-new :
          V.cell r (to_string store.hex_encode key) f ≡ none
          → kv_wrapper store serde (KvOperation.hset_nx f v q) key r ≡ (
            ok (KvResult.hset_nx HsetnxReply.key_set),
            pushed json key (V.put (to_string store.hex_encode key) f t r),
          )
      unfolding kv_wrapper run_operation push_if_set
      hset_nx-new c =
          let k = to_string store.hex_encode key in
          simp (
            connected,
            redis.set_nx-new serde k f t v (some store.kv_config.ttl_for_kv) r up c e,
            push-runs q json key (V.put k f t r) (redis.up-put k f t r up) j,
          )

      pub hset_nx-old :
          (old : Text)
          → V.cell r (to_string store.hex_encode key) f ≡ some old
          → kv_wrapper store serde (KvOperation.hset_nx f v q) key r
            ≡ (ok (KvResult.hset_nx HsetnxReply.key_not_set), r)
      unfolding kv_wrapper run_operation push_if_set
      hset_nx-old old c =
          let k = to_string store.hex_encode key in
          simp (
            connected,
            redis.set_nx-old serde k f t old v (some store.kv_config.ttl_for_kv) r up c e,
          )

    pub hdel-runs :
        (q : SerializableQuery) (json : Text) (key : PartitionKey) (f t : Text) (r : R)
        → store.query_json q ≡ some json
        → V.up r ≡ true
        → V.cell r (to_string store.hex_encode key) f ≡ some t
        → kv_wrapper store serde (KvOperation.hdel f q) key r
          ≡ (ok (KvResult.hdel 1), pushed json key (V.drop (to_string store.hex_encode key) f r))
    unfolding kv_wrapper run_operation
    hdel-runs q json key f t r j up c =
        let k = to_string store.hex_encode key in
        simp (
          connected,
          redis.delete-hit k f t r up c,
          push-runs q json key (V.drop k f r) (redis.up-drop k f r up) j,
        )

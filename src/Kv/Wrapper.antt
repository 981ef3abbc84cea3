-- ===== src/Kv/Wrapper.antt =====
-- storage/kv/wrapper.rs: one operation on Redis, and the drainer entry that goes with a write. Metrics
-- and logs are left out. `R` is Redis' state.
pub mod Runs
use hyperswitch_card_vault.Common.{
  ℕ, List, [], ◌∷◌, Option, some, Text, codes, Result, ok, err, ok_or, map_error, pure, Exec, ◌>>=◌,
  ◌>>◌,
}
use hyperswitch_card_vault.Storage.Rows.{Bytes}
use hyperswitch_card_vault.Kv.Errors.{RedisError, redis_error_from_ref}
use hyperswitch_card_vault.Kv.Keys.{
  PartitionKey, KvConfig, to_string, shard_key, drainer_stream_name,
}
use hyperswitch_card_vault.Kv.Query.{SerializableQuery, to_field_value_pairs}

abbrev pub request_id : Text
request_id = codes "VAULT_CONSTANT_REQUEST_ID"

pub data HsetnxReply : Type 0 where
  key_set key_not_set : HsetnxReply

-- The `serde` implementation of a type: its JSON text, and the value of a text.
pub record Serde (S : Type 0) : Type 0 where
  pub to_json : S → Option Text
  pub from_json : Text → Option S

-- The connection pool of the Redis library. The first two arguments of a hash operation are the key
-- and the field; a lifetime is in seconds.
pub record RedisConn (R : Type 0) : Type 1 where
  pub set_hash_fields : Text → List (Text × Text) → Option ℕ → Exec R RedisError (Unit {0})
  pub serialize_and_set_hash_field_if_not_exist :
      {S : Type 0} → Serde S → Text → Text → S → Option ℕ → Exec R RedisError HsetnxReply
  pub get_hash_field_and_deserialize : {S : Type 0} → Serde S → Text → Text → Exec R RedisError S
  pub delete_hash_fields : Text → Text → Exec R RedisError ℕ
  pub stream_append_entry : Text → List (Text × Text) → Exec R RedisError (Unit {0})

-- What the KV layer reads of the store (`KvStoreContext`), with the library functions that it calls:
-- `query_json` is `serde_json::to_string` of a query.
pub record KvStore (R : Type 0) : Type 1 where
  pub redis : Option (RedisConn R)
  pub kv_config : KvConfig
  pub hex_encode : Bytes → Text
  pub crc32 : Text → ℕ
  pub query_json : SerializableQuery → Option Text
  pub unix_timestamp : R → ℕ

-- KvOperation; the first text is the field.
pub data KvOperation (S : Type 0) : Type 0 where
  hset : Text → S → SerializableQuery → KvOperation S
  hset_nx : Text → S → SerializableQuery → KvOperation S
  hget : Text → KvOperation S
  hdel : Text → SerializableQuery → KvOperation S

pub data KvResult (T : Type 0) : Type 0 where
  hget : T → KvResult T
  hset : KvResult T
  hset_nx : HsetnxReply → KvResult T
  hdel : ℕ → KvResult T

module _ {T : Type 0} where
  unfoldable pub try_into_hset : KvResult T → Result RedisError (Unit {0})
  try_into_hset KvResult.hset = ok tt
  try_into_hset _ = err RedisError.unknown_result

  unfoldable pub try_into_hsetnx : KvResult T → Result RedisError HsetnxReply
  try_into_hsetnx (KvResult.hset_nx v) = ok v
  try_into_hsetnx _ = err RedisError.unknown_result

  unfoldable pub try_into_hdel : KvResult T → Result RedisError ℕ
  try_into_hdel (KvResult.hdel v) = ok v
  try_into_hdel _ = err RedisError.unknown_result

-- A call of the Redis library, its error brought over.
abbrev pub bridge : {R A : Type 0} → Exec R RedisError A → Exec R RedisError A
bridge = map_error redis_error_from_ref

module _ {R : Type 0} (store : KvStore R) where
  abbrev pub get_redis_conn : Result RedisError (RedisConn R)
  get_redis_conn = ok_or RedisError.redis_connection_error store.redis

  unfoldable pub entry_fields :
      SerializableQuery → PartitionKey → Exec R RedisError (List (Text × Text))
  entry_fields serializable_query partition_key r =
      map_error (λ _. RedisError.json_serialization_failed)
        (pure (
          to_field_value_pairs store.query_json (store.unix_timestamp r) serializable_query
            request_id (to_string store.hex_encode partition_key)))
        r

  unfoldable pub stream_of : PartitionKey → Text
  stream_of partition_key =
      drainer_stream_name store.kv_config (
        shard_key store.hex_encode store.crc32 partition_key store.kv_config.drainer_num_partitions)

  unfoldable pub push_to_drainer_stream :
      SerializableQuery → PartitionKey → Exec R RedisError (Unit {0})
  push_to_drainer_stream serializable_query partition_key = do
    redis_conn ← pure get_redis_conn
    fields ← entry_fields serializable_query partition_key
    map_error (λ _. RedisError.stream_append_failed)
        (bridge (redis_conn.stream_append_entry (stream_of partition_key) fields))

  module _ {S : Type 0} (serde : Serde S) where
    -- What follows a `set_nx`: only the writer of a new key pushes an entry.
    unfoldable pub push_if_set :
        SerializableQuery → PartitionKey → HsetnxReply → Exec R RedisError (KvResult S)
    push_if_set query partition_key HsetnxReply.key_set = do
      push_to_drainer_stream query partition_key
      pure (ok (KvResult.hset_nx HsetnxReply.key_set))
    push_if_set query partition_key HsetnxReply.key_not_set =
        pure (ok (KvResult.hset_nx HsetnxReply.key_not_set))

    unfoldable pub run_operation :
        RedisConn R → KvOperation S → PartitionKey → Exec R RedisError (KvResult S)
    run_operation redis_conn (KvOperation.hset field value query) partition_key = do
      serialized ← pure (ok_or RedisError.json_serialization_failed (serde.to_json value))
      bridge (
          redis_conn.set_hash_fields (to_string store.hex_encode partition_key)
            ((field, serialized) ∷ []) (some store.kv_config.ttl_for_kv))
      push_to_drainer_stream query partition_key
      pure (ok KvResult.hset)
    run_operation redis_conn (KvOperation.hset_nx field value query) partition_key = do
      result ← bridge (
          redis_conn.serialize_and_set_hash_field_if_not_exist serde
            (to_string store.hex_encode partition_key) field value
            (some store.kv_config.ttl_for_kv))
      push_if_set query partition_key result
    run_operation redis_conn (KvOperation.hget field) partition_key = do
      result ← bridge (
          redis_conn.get_hash_field_and_deserialize serde (to_string store.hex_encode partition_key)
            field)
      pure (ok (KvResult.hget result))
    run_operation redis_conn (KvOperation.hdel field query) partition_key = do
      result ←
          bridge (redis_conn.delete_hash_fields (to_string store.hex_encode partition_key) field)
      push_to_drainer_stream query partition_key
      pure (ok (KvResult.hdel result))

    -- The result of the code has a type of its own, of which only `HGet` holds a value: for the
    -- operations without one it is the unit type there and any type here.
    unfoldable pub kv_wrapper : KvOperation S → PartitionKey → Exec R RedisError (KvResult S)
    kv_wrapper op partition_key = do
      redis_conn ← pure get_redis_conn
      run_operation redis_conn op partition_key

-- ===== src/Kv/Keys.antt =====
-- storage/kv/partition_key.rs, and `KvConfig` of config.rs: the Redis keys and the drainer's streams.
-- Hexadecimal text (`hex::encode`) and the CRC-32 (`crc32fast::hash`) are parameters.
pub mod Injective
pub mod Shards
mod Tests
use hyperswitch_card_vault.Common.{
  ℕ, zero, suc, ◌+◌, ◌/◌, ◌%◌, [], ◌∷◌, ◌++◌, ltb, ◌==◌, if◌then◌else◌, String, Text, codes, Result,
  ok, err,
}
use hyperswitch_card_vault.Storage.Rows.{Bytes}

pub data PartitionKey : Type 0 where
  combination_key : Text → PartitionKey
  fingerprint : Bytes → PartitionKey
  hash_table : Bytes → PartitionKey
  -- merchant_id, customer_id, locker_id
  locker : Text → Text → Text → PartitionKey
  reverse_lookup : Text → PartitionKey
  -- entity_id, vault_id
  vault : Text → Text → PartitionKey

-- Display of an unsigned number: its decimal digits, at most as many as the fuel.
decimal_digits : ℕ → ℕ → Text
decimal_digits zero n = []
decimal_digits (suc fuel) n =
    let more = decimal_digits fuel (n / 10) in
    if ltb n 10 then (n + 48) ∷ [] else more ++ (n % 10 + 48) ∷ []

unfoldable pub decimal : ℕ → Text
unfolding decimal_digits
decimal n = decimal_digits (n + 1) n

-- Display for PartitionKey
unfoldable pub to_string : (Bytes → Text) → PartitionKey → Text
to_string hex_encode (PartitionKey.combination_key combination) = combination
to_string hex_encode (PartitionKey.fingerprint fingerprint_hash) =
    codes "fingerprint_" ++ hex_encode fingerprint_hash
to_string hex_encode (PartitionKey.vault entity_id vault_id) =
    codes "vault_" ++ (entity_id ++ (codes "_" ++ vault_id))
to_string hex_encode (PartitionKey.hash_table data_hash) =
    codes "hash_table_" ++ hex_encode data_hash
to_string hex_encode (PartitionKey.locker merchant_id customer_id locker_id) =
    codes "locker_" ++ (merchant_id ++ (codes "_" ++ (customer_id ++ (codes "_" ++ locker_id))))
to_string hex_encode (PartitionKey.reverse_lookup lookup_id) = codes "reverse_lookup_" ++ lookup_id

pub record KvConfig : Type 0 where
  pub drainer_stream_suffix : Text
  pub drainer_num_partitions : ℕ
  pub ttl_for_kv : ℕ

unfoldable pub drainer_stream_name : KvConfig → Text → Text
drainer_stream_name config shard_key =
    codes "{" ++ (shard_key ++ (codes "}_" ++ config.drainer_stream_suffix))

-- KvConfig::validate; the error is `InvalidConfigurationValueError`.
unfoldable pub validate : KvConfig → Result String (Unit {0})
validate config =
    if config.drainer_num_partitions == 0
    then err "kv.drainer_num_partitions must be greater than 0"
    else ok tt

module _ (hex_encode : Bytes → Text) (crc32 : Text → ℕ) where
  -- The remainder by 0, which panics, is excluded by `validate`.
  unfoldable pub partition_number : PartitionKey → ℕ → ℕ
  partition_number key num_partitions = crc32 (to_string hex_encode key) % num_partitions

  unfoldable pub shard_key : PartitionKey → ℕ → Text
  unfolding partition_number
  shard_key key num_partitions = codes "shard_" ++ decimal (partition_number key num_partitions)

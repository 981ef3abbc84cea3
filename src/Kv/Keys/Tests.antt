-- ===== src/Kv/Keys/Tests.antt =====
-- The Redis names and shards of concrete keys.
use hyperswitch_card_vault.Common.{◌↔◌, ℕ, ◌≡◌, refl, Text, codes, arith}
use hyperswitch_card_vault.Storage.Rows.{Bytes}
use hyperswitch_card_vault.Kv.Keys.{
  PartitionKey, KvConfig, to_string, decimal, partition_number, shard_key, drainer_stream_name,
}
use hyperswitch_card_vault.Kv.Keys.Shards.{stream_iff_partition}
use hyperswitch_card_vault.Kv.Keys.Injective.{IsSeparable, to_string_injective, vaults_share_name}

abbrev config : KvConfig
config = record {
  drainer_stream_suffix = codes "stream";
  drainer_num_partitions = 4;
  ttl_for_kv = 900;
}

abbrev hex : Bytes → Text
hex bytes = bytes

abbrev crc : Text → ℕ
crc text = 7

abbrev key : PartitionKey
key = PartitionKey.vault (codes "m") (codes "v_1")

stream_name : drainer_stream_name config (shard_key hex crc key 4) ≡ codes "{shard_3}_stream"
unfolding drainer_stream_name shard_key decimal
stream_name = refl

stream_iff_partition_example :
    let other = PartitionKey.vault (codes "m") (codes "v_2") in
    (drainer_stream_name config (shard_key hex crc key 4)
      ≡ drainer_stream_name config (shard_key hex crc other 4))
    ↔ (partition_number hex crc key 4 ≡ partition_number hex crc other 4)
stream_iff_partition_example =
    stream_iff_partition hex crc config key (PartitionKey.vault (codes "m") (codes "v_2"))

to_string_injective_example : PartitionKey.vault (codes "m") (codes "v_1") ≡ key
unfolding IsSeparable
to_string_injective_example =
    to_string_injective hex (λ a b h. h) key key (ground arith) (ground arith) refl

vaults_share_name_example :
    to_string hex (PartitionKey.vault (codes "a_b") (codes "c"))
    ≡ to_string hex (PartitionKey.vault (codes "a") (codes "b_c"))
vaults_share_name_example = vaults_share_name hex (codes "a") (codes "b") (codes "c")

-- ===== src/Kv/Keys/Shards.antt =====
-- storage/kv/partition_key.rs and config.rs: the shard of a key and its stream.
use hyperswitch_card_vault.Common.{
  ℕ, zero, suc, ◌+◌, ◌-◌, ◌*◌, ◌/◌, ◌%◌, ◌<◌, ◌≡◌, ◌↔◌, codes, ◌∙◌, refl, sym, ap, [], ◌∷◌, ◌++◌,
  ltb, Bool-cases, Text, arith, inl, inr,
}
use mathlib.Core.List.{append_cancel_left, append_cancel_right}
use hyperswitch_card_vault.Storage.Rows.{Bytes}
use hyperswitch_card_vault.Kv.Keys.{
  PartitionKey, KvConfig, decimal_digits, decimal, partition_number, shard_key, drainer_stream_name,
}

-- The number that decimal digits stand for.
unfoldable pub read_decimal : ℕ → Text → ℕ
read_decimal acc [] = acc
read_decimal acc (c ∷ cs) = read_decimal (acc * 10 + (c - 48)) cs

read_decimal-append :
    (acc : ℕ) (s t : Text) → read_decimal acc (s ++ t) ≡ read_decimal (read_decimal acc s) t
unfolding read_decimal
read_decimal-append acc [] t = refl
read_decimal-append acc (c ∷ s) t = read_decimal-append (acc * 10 + (c - 48)) s t

read_decimal-digits : (fuel n : ℕ) → n < fuel → read_decimal 0 (decimal_digits fuel n) ≡ n
unfolding decimal_digits read_decimal
read_decimal-digits zero n h = absurd (omega arith)
read_decimal-digits (suc fuel) n h = elim (Bool-cases (ltb n 10)) [
  | inl small ↦ rw small (omega arith)
  | inr large ↦ rw large (
      read_decimal-append 0 (decimal_digits fuel (n / 10)) ((n % 10 + 48) ∷ [])
      ∙ rw (read_decimal-digits fuel (n / 10) (ground arith)) (omega arith))
]

-- The decimal text of a number reads back as the number, for every number.
pub read_decimal-decimal : (n : ℕ) → read_decimal 0 (decimal n) ≡ n
unfolding decimal
read_decimal-decimal n = read_decimal-digits (n + 1) n (omega arith)

-- Two keys go to one stream exactly where they are in one partition.
pub stream_iff_partition :
    (hex_encode : Bytes → Text) (crc32 : Text → ℕ) (config : KvConfig) (key other : PartitionKey)
    → let n = config.drainer_num_partitions in
      let stream =
        λ (k : PartitionKey). drainer_stream_name config (shard_key hex_encode crc32 k n) in
      (stream key ≡ stream other)
      ↔ (partition_number hex_encode crc32 key n ≡ partition_number hex_encode crc32 other n)
unfolding drainer_stream_name shard_key
stream_iff_partition hex_encode crc32 config key other =
    let n = config.drainer_num_partitions in
    let p = partition_number hex_encode crc32 key n in
    let q = partition_number hex_encode crc32 other n in
    let suffix = codes "}_" ++ config.drainer_stream_suffix in
    (
      (λ h.
          sym (read_decimal-decimal p)
          ∙ ap (read_decimal 0) (
              append_cancel_right (decimal p) (decimal q) suffix (
                append_cancel_left (codes "{shard_") (decimal p ++ suffix) (decimal q ++ suffix) h))
          ∙ read_decimal-decimal q),
      (λ h. ap (λ m. codes "{shard_" ++ (decimal m ++ suffix)) h),
    )

-- ===== src/Storage/Scheme.antt =====
-- storage/scheme.rs and storage/kv/scheme.rs.
use hyperswitch_card_vault.Common.{Text, codes}

-- Which backend wrote a row.
pub data StorageScheme : Type 0 where
  postgres_only redis_kv : StorageScheme

-- strum's Display, in snake case.
unfoldable pub scheme_to_string : StorageScheme → Text
scheme_to_string StorageScheme.postgres_only = codes "postgres_only"
scheme_to_string StorageScheme.redis_kv = codes "redis_kv"

-- The master switch of the KV layer.
pub data KvState : Type 0 where
  disabled enabled soft_kill : KvState

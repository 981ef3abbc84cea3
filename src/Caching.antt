-- ===== src/Caching.antt =====
-- storage/caching.rs and storage/caching/: a store behind in-memory caches. The caches are the library's
-- (`moka`) and a parameter: their state is `C`, and a read may change it. Metrics are left out.
pub mod Coherence
mod Tests
use hyperswitch_card_vault.Common.{Option, none, some, Text, Result, ok, err, Fault, Exec}
use hyperswitch_card_vault.Error.Types.{
  EntityDbError, FingerprintDbError, HashDbError, MerchantDbError,
}
use hyperswitch_card_vault.Storage.Rows.{Bytes, Merchant, HashTable, Fingerprint, Entity}
use hyperswitch_card_vault.Domain.{HashInterface, FingerprintInterface}
use hyperswitch_card_vault.KeyManager.Internal.{MerchantInterface}
use hyperswitch_card_vault.KeyManager.External.{EntityInterface}

-- One cache.
pub record Cache (C K V : Type 0) : Type 0 where
  pub get : K → C → Option V × C
  pub insert : K → V → C → C

-- A call of the inner store.
abbrev pub inner : {W C E A : Type 0} → Exec W E A → Exec (W × C) E A
inner m (w, c) = let (a, w') = m w in (a, (w', c))

module _ {W C K V : Type 0} (cache : Cache C K V) where
  -- Caching::lookup, Caching::cache_data
  unfoldable pub lookup : K → W × C → Option V × (W × C)
  lookup key (w, c) = let (value, c') = cache.get key c in (value, (w, c'))

  unfoldable pub cache_data : K → V → W × C → W × C
  cache_data key value (w, c) = (w, cache.insert key value c)

module _ {W C K V E : Type 0} (cache : Cache C K V) where
  -- What was read from the store is cached, if there is a row.
  unfoldable pub cache_optional : K → Result E (Option V) × (W × C) → Result E (Option V) × (W × C)
  unfolding cache_data
  cache_optional key (ok none, s) = (ok none, s)
  cache_optional key (ok (some value), s) = (ok (some value), cache_data cache key value s)
  cache_optional key (err e, s) = (err e, s)

  unfoldable pub or_find_optional :
      K → Exec W E (Option V) → Option V × (W × C) → Result E (Option V) × (W × C)
  unfolding cache_optional
  or_find_optional key find (some value, s) = (ok (some value), s)
  or_find_optional key find (none, s) = cache_optional key (inner find s)

  unfoldable pub find_optional : (K → Exec W E (Option V)) → K → Exec (W × C) E (Option V)
  unfolding or_find_optional lookup
  find_optional find key s = or_find_optional key (find key) (lookup cache key s)

  unfoldable pub cache_value : (V → K) → Result E V × (W × C) → Result E V × (W × C)
  unfolding cache_data
  cache_value key_of (ok value, s) = (ok value, cache_data cache (key_of value) value s)
  cache_value key_of (err e, s) = (err e, s)

  unfoldable pub or_find : (V → K) → Exec W E V → Option V × (W × C) → Result E V × (W × C)
  unfolding cache_value
  or_find key_of find (some value, s) = (ok value, s)
  or_find key_of find (none, s) = cache_value key_of (inner find s)

  -- A read whose missing row is an error, which is not cached; the key of what was read is `key_of`'s.
  unfoldable pub find_value : (K → V → K) → (K → Exec W E V) → K → Exec (W × C) E V
  unfolding or_find lookup
  find_value key_of find key s = or_find (key_of key) (find key) (lookup cache key s)

  -- An insert, whose row is cached under a key.
  unfoldable pub insert_value : (V → K) → Exec W E V → Exec (W × C) E V
  unfolding cache_value
  insert_value key_of insert s = cache_value key_of (inner insert s)

module _ {W C : Type 0} where
  -- The interfaces of `Caching<T>`, over those of `T`.
  unfoldable pub caching_hashes : Cache C Bytes HashTable → HashInterface W → HashInterface (W × C)
  caching_hashes cache db = record {
    find_optional_by_data_hash = find_optional cache db.find_optional_by_data_hash;
    insert_hash = λ data_hash. insert_value cache (λ _. data_hash) (db.insert_hash data_hash);
  }

  unfoldable pub caching_fingerprints :
      Cache C Bytes Fingerprint → FingerprintInterface W → FingerprintInterface (W × C)
  caching_fingerprints cache db = record {
    find_optional_by_fingerprint_hash = find_optional cache db.find_optional_by_fingerprint_hash;
    insert_fingerprint = λ fingerprint_hash fingerprint_id.
        insert_value cache (λ output. output.fingerprint_hash)
          (db.insert_fingerprint fingerprint_hash fingerprint_id);
  }

  unfoldable pub caching_merchants :
      Cache C Text Merchant → MerchantInterface W → MerchantInterface (W × C)
  caching_merchants cache db = record {
    find_by_merchant_id = λ merchant_id key.
        find_value cache (λ id output. id) (λ id. db.find_by_merchant_id id key) merchant_id;
    insert_merchant =
        λ new key. insert_value cache (λ _. new.merchant_id) (db.insert_merchant new key);
    find_all_keys_excluding_entity_keys =
        λ key limit. inner (db.find_all_keys_excluding_entity_keys key limit);
  }

  unfoldable pub caching_entities :
      Cache C Text Entity → EntityInterface W → EntityInterface (W × C)
  caching_entities cache db = record {
    find_by_entity_id = find_value cache (λ id output. output.entity_id) db.find_by_entity_id;
    insert_entity = λ entity_id identifier.
        insert_value cache (λ _. entity_id) (db.insert_entity entity_id identifier);
  }

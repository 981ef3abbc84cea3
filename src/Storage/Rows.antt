-- ===== src/Storage/Rows.antt =====
-- storage/types.rs: the rows of the tables and the conversions between them. A `Secret` is its content,
-- a time the nanoseconds since a fixed date.
use hyperswitch_card_vault.Common.{ℕ, List, Option, none, some, Text}
use hyperswitch_card_vault.Storage.Scheme.{StorageScheme}

abbrev pub Bytes : Type 0
Bytes = List ℕ

abbrev pub Time : Type 0
Time = ℕ

pub data Encryptable : Type 0 where
  encrypted decrypted : Bytes → Encryptable

unfoldable pub get_encrypted_inner_value : Encryptable → Option Bytes
get_encrypted_inner_value (Encryptable.encrypted secret) = some secret
get_encrypted_inner_value (Encryptable.decrypted _) = none

unfoldable pub get_decrypted_inner_value : Encryptable → Option Bytes
get_decrypted_inner_value (Encryptable.encrypted _) = none
get_decrypted_inner_value (Encryptable.decrypted secret) = some secret

unfoldable pub from_decrypted_data : Bytes → Encryptable
from_decrypted_data decrypted_data = Encryptable.decrypted decrypted_data

pub record Merchant : Type 0 where
  pub merchant_id : Text
  pub enc_key : Bytes
  pub created_at : Time

pub record LockerNew : Type 0 where
  pub locker_id : Text
  pub merchant_id : Text
  pub customer_id : Text
  pub enc_data : Bytes
  pub created_at : Time
  pub hash_id : Text
  pub ttl : Option Time
  pub updated_by : Option StorageScheme

pub record LockerInner : Type 0 where
  pub id : ℕ
  pub locker_id : Text
  pub merchant_id : Text
  pub customer_id : Text
  pub enc_data : Bytes
  pub created_at : Time
  pub hash_id : Text
  pub ttl : Option Time
  pub updated_by : Option StorageScheme

pub record Locker : Type 0 where
  pub locker_id : Text
  pub merchant_id : Text
  pub customer_id : Text
  pub content : Encryptable
  pub created_at : Time
  pub hash_id : Text
  pub ttl : Option Time
  pub updated_by : Option StorageScheme

-- From<LockerNew> for LockerInner
unfoldable pub locker_inner_of_new : LockerNew → LockerInner
locker_inner_of_new value = record {
  id = 0;
  locker_id = value.locker_id;
  merchant_id = value.merchant_id;
  customer_id = value.customer_id;
  enc_data = value.enc_data;
  created_at = value.created_at;
  hash_id = value.hash_id;
  ttl = value.ttl;
  updated_by = value.updated_by;
}

-- From<LockerInner> for Locker
unfoldable pub locker_of_inner : LockerInner → Locker
locker_of_inner value = record {
  locker_id = value.locker_id;
  merchant_id = value.merchant_id;
  customer_id = value.customer_id;
  content = Encryptable.encrypted value.enc_data;
  created_at = value.created_at;
  hash_id = value.hash_id;
  ttl = value.ttl;
  updated_by = value.updated_by;
}

pub record ReverseLookup : Type 0 where
  pub lookup_id : Text
  pub secondary_key : Text
  pub partition_key : Text
  pub source : Text
  pub updated_by : Text

pub record ReverseLookupNew : Type 0 where
  pub lookup_id : Text
  pub secondary_key : Text
  pub partition_key : Text
  pub source : Text
  pub updated_by : Text

unfoldable pub reverse_lookup_of_new : ReverseLookupNew → ReverseLookup
reverse_lookup_of_new value = record {
  lookup_id = value.lookup_id;
  secondary_key = value.secondary_key;
  partition_key = value.partition_key;
  source = value.source;
  updated_by = value.updated_by;
}

pub record HashTableNew : Type 0 where
  pub hash_id : Text
  pub data_hash : Bytes
  pub created_at : Time
  pub updated_by : Option StorageScheme

pub record HashTable : Type 0 where
  pub id : ℕ
  pub hash_id : Text
  pub data_hash : Bytes
  pub created_at : Time
  pub updated_by : Option StorageScheme

unfoldable pub hash_table_of_new : HashTableNew → HashTable
hash_table_of_new value = record {
  id = 0;
  hash_id = value.hash_id;
  data_hash = value.data_hash;
  created_at = value.created_at;
  updated_by = value.updated_by;
}

pub record FingerprintTableNew : Type 0 where
  pub fingerprint_hash : Bytes
  pub fingerprint_id : Text
  pub updated_by : Option StorageScheme

pub record Fingerprint : Type 0 where
  pub id : ℕ
  pub fingerprint_hash : Bytes
  pub fingerprint_id : Text
  pub updated_by : Option StorageScheme

unfoldable pub fingerprint_of_new : FingerprintTableNew → Fingerprint
fingerprint_of_new value = record {
  id = 0;
  fingerprint_hash = value.fingerprint_hash;
  fingerprint_id = value.fingerprint_id;
  updated_by = value.updated_by;
}

pub record Entity : Type 0 where
  pub id : ℕ
  pub entity_id : Text
  pub enc_key_id : Text
  pub created_at : Time

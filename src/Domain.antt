-- ===== src/Domain.antt =====
-- domain/fingerprint.rs, hash.rs, locker.rs and vault.rs: inserts that read the row of another back.
-- The interfaces are those of storage.rs and storage/storage_v2.rs, over the store's state `W`; the
-- HMAC of the crypto library, generated identifiers and metrics are parameters or left out.
pub mod Race
pub mod Hmac
mod Tests
use hyperswitch_card_vault.Common.{
  Bool, true, false, ℕ, Option, none, some, Text, Result, ok, err, map_err, continue, pure, Exec,
  ◌>>=◌,
}
use hyperswitch_card_vault.Error.Types.{CryptoError, FingerprintDbError, HashDbError, VaultDbError}
use hyperswitch_card_vault.Error.FromCrypto.{fingerprint_of_crypto}
use hyperswitch_card_vault.Error.Classify.{
  StorageErrorExt, fingerprint_errors, hash_errors, vault_errors,
}
use hyperswitch_card_vault.Storage.Rows.{Bytes, LockerNew, Locker, HashTable, Fingerprint}
use hyperswitch_card_vault.Storage.Vaults.{Vault, VaultNew, VaultUpdate, update_of_new}

pub record FingerprintInterface (W : Type 0) : Type 0 where
  pub find_optional_by_fingerprint_hash : Bytes → Exec W FingerprintDbError (Option Fingerprint)
  pub insert_fingerprint : Bytes → Text → Exec W FingerprintDbError Fingerprint

pub record HashInterface (W : Type 0) : Type 0 where
  pub find_optional_by_data_hash : Bytes → Exec W HashDbError (Option HashTable)
  pub insert_hash : Bytes → Exec W HashDbError HashTable

pub record LockerInterface (W : Type 0) : Type 0 where
  pub insert_locker : LockerNew → Exec W VaultDbError Locker
  pub find_by_locker_id_merchant_id_customer_id : Text → Text → Text → Exec W VaultDbError Locker
  pub find_optional_by_hash_id_merchant_id_customer_id :
      Text → Text → Text → Exec W VaultDbError (Option Locker)
  pub delete_locker : Text → Text → Text → Exec W VaultDbError ℕ

pub record VaultInterface (W : Type 0) : Type 0 where
  pub insert_vault : VaultNew → Exec W VaultDbError Vault
  pub find_by_vault_id_entity_id : Text → Text → Exec W VaultDbError Vault
  pub update_vault_data : Text → Text → VaultUpdate → Exec W VaultDbError Vault
  pub delete_from_vault : Text → Text → Exec W VaultDbError ℕ

module _ {W E A : Type 0} (errors : StorageErrorExt E) where
  -- What a failed insert ends in: `conflict` where a row was in the way, else its error.
  unfoldable pub or_conflict : Exec W E A → Result E A × W → Result E A × W
  or_conflict conflict (ok a, w) = (ok a, w)
  or_conflict conflict (err e, w) = elim (errors.is_duplicate e) [
    | true ↦ conflict w
    | false ↦ (err e, w)
  ]

  unfoldable pub insert_or : Exec W E A → Exec W E A → Exec W E A
  insert_or insert conflict w = or_conflict conflict (insert w)

-- A read whose missing row is an error.
unfoldable pub required : {W E A : Type 0} → E → Exec W E (Option A) → Exec W E A
required e find = do found ← find; pure (elim found [ none ↦ err e | some a ↦ ok a ])

module _ {W : Type 0} (db : FingerprintInterface W) where
  -- From the hash on: the row, or the new row, or the row of the insert that came first.
  unfoldable pub read_or_insert :
      Bytes → Text → Option Fingerprint → Exec W FingerprintDbError Fingerprint
  read_or_insert fingerprint_hash fingerprint_id (some fingerprint) = pure (ok fingerprint)
  read_or_insert fingerprint_hash fingerprint_id none =
      insert_or fingerprint_errors (db.insert_fingerprint fingerprint_hash fingerprint_id) (
        required FingerprintDbError.db_insert_error
          (db.find_optional_by_fingerprint_hash fingerprint_hash))

  unfoldable pub get_or_insert_hash : Bytes → Text → Exec W FingerprintDbError Fingerprint
  get_or_insert_hash fingerprint_hash fingerprint_id = do
    found ← db.find_optional_by_fingerprint_hash fingerprint_hash
    read_or_insert fingerprint_hash fingerprint_id found

  -- `encode` is `HmacSha512::<1>::encode` with the key; the identifier to generate is an argument.
  unfoldable pub get_or_insert :
      (Bytes → Bytes → Result CryptoError Bytes)
      → Text
      → Bytes
      → Bytes
      → Option Text
      → Exec W FingerprintDbError Fingerprint
  get_or_insert encode generate_nano_id content key fingerprint_id = do
    fingerprint_hash ← pure (map_err fingerprint_of_crypto (encode key content))
    get_or_insert_hash fingerprint_hash
        (elim fingerprint_id [ none ↦ generate_nano_id | some given ↦ given ])

unfoldable pub insert_or_get : {W : Type 0} → HashInterface W → Bytes → Exec W HashDbError HashTable
insert_or_get db data_hash =
    insert_or hash_errors (db.insert_hash data_hash)
      (required HashDbError.db_insert_error (db.find_optional_by_data_hash data_hash))

module _ {W : Type 0} (db : LockerInterface W) where
  unfoldable pub get_or_insert_locker : LockerNew → Exec W VaultDbError Locker
  get_or_insert_locker new =
      insert_or vault_errors (db.insert_locker new)
        (db.find_by_locker_id_merchant_id_customer_id new.locker_id new.merchant_id new.customer_id)

module _ {W : Type 0} (db : VaultInterface W) where
  unfoldable pub get_or_insert_vault : VaultNew → Exec W VaultDbError Vault
  get_or_insert_vault new =
      insert_or vault_errors (db.insert_vault new)
        (db.find_by_vault_id_entity_id new.vault_id new.entity_id)

  unfoldable pub upsert : VaultNew → Exec W VaultDbError Vault
  upsert new =
      insert_or vault_errors (db.insert_vault new)
        (db.update_vault_data new.vault_id new.entity_id (update_of_new new))

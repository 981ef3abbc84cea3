-- ===== src/Storage/Merchants.antt =====
-- storage/db.rs: `Storage`'s operations on the merchant and entity tables, and the encryption of a
-- merchant's key in storage/types.rs. What diesel does on a connection is a parameter, and so are the
-- cipher and the random bytes, which are a function of the world.
use hyperswitch_card_vault.Common.{
  ℕ, List, [], ◌∷◌, Option, Text, Result, ok, err, map_err, map_ok, Fault, raised, panicked,
  map_fault, Exec, map_error, pure, ◌>>=◌,
}
use hyperswitch_card_vault.Error.Types.{CryptoError, MerchantDbError, EntityDbError, StorageError}
use hyperswitch_card_vault.Error.FromStorage.{merchant_of_storage, entity_of_storage}
use hyperswitch_card_vault.Error.FromCrypto.{merchant_of_crypto}
use hyperswitch_card_vault.Error.Classify.{DieselError, merchant_errors, entity_errors}
use hyperswitch_card_vault.Storage.Rows.{Bytes, Time, Merchant, Entity}
use hyperswitch_card_vault.Storage.World.{World, Pools, DbPool, get_conn, route_conn, on_db}
use hyperswitch_card_vault.Crypto.Aes.{Aead, Outcome, encrypt, decrypt}

pub record MerchantInner : Type 0 where
  pub id : ℕ
  pub merchant_id : Text
  pub enc_key : Bytes
  pub created_at : Time

pub record MerchantNewInner : Type 0 where
  pub merchant_id : Text
  pub enc_key : Bytes

pub record MerchantNew : Type 0 where
  pub merchant_id : Text
  pub enc_key : Bytes

pub record EntityTableNew : Type 0 where
  pub entity_id : Text
  pub enc_key_id : Text

-- The statements on the merchant table; the last is that of the rows with no row of the same identifier
-- in the entity table.
pub record MerchantTable (D : Type 0) : Type 0 where
  pub select : DbPool → Text → Exec D DieselError MerchantInner
  pub insert : DbPool → MerchantNewInner → Exec D DieselError MerchantInner
  pub select_without_entity : DbPool → ℕ → Exec D DieselError (List MerchantInner)

pub record EntityTable (D : Type 0) : Type 0 where
  pub select : DbPool → Text → Exec D DieselError Entity
  pub insert : DbPool → EntityTableNew → Exec D DieselError Entity

-- What a decryption gives to its caller.
unfoldable pub settle : {A : Type 0} → Outcome A → Result (Fault CryptoError) A
settle (Outcome.returns r) = map_err raised r
settle Outcome.panics = err panicked

module _ (aead : Aead) where
  -- StorageDecryption for MerchantInner
  unfoldable pub decrypt_merchant : MerchantInner → Bytes → Result (Fault CryptoError) Merchant
  unfolding settle
  decrypt_merchant self algo =
      map_ok
        (λ enc_key. record {
          merchant_id = self.merchant_id;
          enc_key = enc_key;
          created_at = self.created_at;
        })
        (settle (decrypt aead algo self.enc_key))

  -- StorageEncryption for MerchantNew, with the random bytes of the nonce.
  unfoldable pub encrypt_merchant :
      MerchantNew → Bytes → Option Bytes → Result CryptoError MerchantNewInner
  encrypt_merchant self algo random =
      map_ok (λ enc_key. record { merchant_id = self.merchant_id; enc_key = enc_key })
        (encrypt aead algo random self.enc_key)

  -- The map over the rows and its `collect`, which ends at the first error.
  unfoldable pub decrypt_all :
      Bytes → List MerchantInner → Result (Fault MerchantDbError) (List Merchant)
  decrypt_all key [] = ok []
  decrypt_all key (inner ∷ rest) = elim (decrypt_merchant inner key) [
    | err e ↦ err (map_fault (λ _. MerchantDbError.dek_decryption_error) e)
    | ok merchant ↦ map_ok (λ merchants. merchant ∷ merchants) (decrypt_all key rest)
  ]

module _ {R D : Type 0} (pools : Pools D) where
  module _ (aead : Aead) (table : MerchantTable D) where
    unfoldable pub find_by_merchant_id :
        Text → Bytes → Exec (World R D) (Fault MerchantDbError) Merchant
    find_by_merchant_id merchant_id key = do
      pool ← map_error (λ e. raised (merchant_of_storage e)) (route_conn pools)
      inner ←
          map_error (λ e. raised (merchant_errors.of_diesel e))
            (on_db (table.select pool merchant_id))
      pure (map_err (map_fault merchant_of_crypto) (decrypt_merchant aead inner key))

    unfoldable pub insert_merchant :
        (World R D → Option Bytes)
        → MerchantNew
        → Bytes
        → Exec (World R D) (Fault MerchantDbError) Merchant
    insert_merchant random new key = do
      pool ← map_error (λ e. raised (merchant_of_storage e)) (get_conn pools)
      values ← (λ w. (
        map_err (λ e. raised (merchant_of_crypto e)) (encrypt_merchant aead new key (random w)),
        w,
      ))
      inner ←
          map_error (λ e. raised (merchant_errors.of_diesel e)) (on_db (table.insert pool values))
      pure (map_err (map_fault merchant_of_crypto) (decrypt_merchant aead inner key))

    unfoldable pub find_all_keys_excluding_entity_keys :
        Bytes → ℕ → Exec (World R D) (Fault MerchantDbError) (List Merchant)
    find_all_keys_excluding_entity_keys key limit = do
      pool ← map_error (λ e. raised (merchant_of_storage e)) (route_conn pools)
      result ←
          map_error (λ _. raised (merchant_of_storage StorageError.find_error))
            (on_db (table.select_without_entity pool limit))
      pure (decrypt_all aead key result)

  module _ (table : EntityTable D) where
    unfoldable pub find_by_entity_id : Text → Exec (World R D) EntityDbError Entity
    find_by_entity_id entity_id = do
      pool ← map_error entity_of_storage (route_conn pools)
      map_error entity_errors.of_diesel (on_db (table.select pool entity_id))

    unfoldable pub insert_entity : Text → Text → Exec (World R D) EntityDbError Entity
    insert_entity entity_id identifier = do
      pool ← map_error entity_of_storage (get_conn pools)
      map_error entity_errors.of_diesel
          (on_db (table.insert pool (record { entity_id = entity_id; enc_key_id = identifier })))

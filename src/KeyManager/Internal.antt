-- ===== src/KeyManager/Internal.antt =====
-- crypto/keymanager/internal_keymanager.rs, and domain/merchant.rs: the key of an entity is in its row
-- of the merchant table, sealed with the tenant's master key. The interface is the trait
-- `MerchantInterface` of storage.rs; generated keys and random bytes are functions of the state.
pub mod Laws
use hyperswitch_card_vault.Common.{
  true, false, List, Option, Text, Result, ok, err, map_err, Fault, raised, panicked, map_fault,
  Exec, map_error, map_exec, pure, ℕ,
}
use hyperswitch_card_vault.Error.Types.{ApiError, MerchantDbError}
use hyperswitch_card_vault.Error.ToApi.{api_of_merchant}
use hyperswitch_card_vault.Error.FromCrypto.{api_of_crypto}
use hyperswitch_card_vault.Error.Classify.{merchant_errors}
use hyperswitch_card_vault.Storage.Rows.{Bytes, Merchant}
use hyperswitch_card_vault.Storage.Merchants.{MerchantNew, settle}
use hyperswitch_card_vault.Crypto.Aes.{Aead, encrypt, decrypt}
use hyperswitch_card_vault.KeyManager.{CryptoOperationsManager, KeyProvider, CreatedEntity}

pub record MerchantInterface (W : Type 0) : Type 0 where
  pub find_by_merchant_id : Text → Bytes → Exec W (Fault MerchantDbError) Merchant
  pub insert_merchant : MerchantNew → Bytes → Exec W (Fault MerchantDbError) Merchant
  pub find_all_keys_excluding_entity_keys :
      Bytes → ℕ → Exec W (Fault MerchantDbError) (List Merchant)

module _ {W : Type 0} where
  -- What a failed insert ends in: a duplicate is read by `find`.
  unfoldable pub after_insert :
      Exec W (Fault MerchantDbError) Merchant
      → Result (Fault MerchantDbError) Merchant
      → Exec W (Fault MerchantDbError) Merchant
  after_insert find (ok merchant) = pure (ok merchant)
  after_insert find (err panicked) = pure (err panicked)
  after_insert find (err (raised e)) = elim (merchant_errors.is_duplicate e) [
    | true ↦ find
    | false ↦ pure (err (raised e))
  ]

  -- What a failed read ends in: a missing row is made by `missing`.
  unfoldable pub or_missing :
      Exec W (Fault MerchantDbError) Merchant
      → Result (Fault MerchantDbError) Merchant
      → Exec W (Fault MerchantDbError) Merchant
  or_missing missing (ok merchant) = pure (ok merchant)
  or_missing missing (err panicked) = pure (err panicked)
  or_missing missing (err (raised e)) = elim (merchant_errors.is_not_found e) [
    | true ↦ missing
    | false ↦ pure (err (raised e))
  ]

module _ {W : Type 0} (aead : Aead) (random : W → Option Bytes) where
  -- InternalCryptoManager
  unfoldable pub from_secret_key : Bytes → CryptoOperationsManager W
  from_secret_key key = record {
    encrypt_data = λ content w.
        (map_err (λ e. raised (api_of_crypto e)) (encrypt aead key (random w) content), w);
    decrypt_data =
        λ content. pure (map_err (map_fault api_of_crypto) (settle (decrypt aead key content)));
  }

module _ {W : Type 0} (db : MerchantInterface W) (generate_aes256_key : W → Bytes) where
  module _ (merchant_id : Text) (key : Bytes) where
    unfoldable pub create : Exec W (Fault MerchantDbError) Merchant
    create w =
        let (inserted, w') =
          db.insert_merchant (record { merchant_id = merchant_id; enc_key = generate_aes256_key w })
            key w in
        after_insert (db.find_by_merchant_id merchant_id key) inserted w'

    -- domain/merchant.rs
    unfoldable pub find_or_create : Exec W (Fault MerchantDbError) Merchant
    find_or_create w =
        let (found, w') = db.find_by_merchant_id merchant_id key w in or_missing create found w'

    -- The read of `find_or_create_entity`, which goes on to `find_or_create`.
    unfoldable pub find_then_create : Exec W (Fault MerchantDbError) Merchant
    find_then_create w =
        let (found, w') = db.find_by_merchant_id merchant_id key w in
        or_missing find_or_create found w'

  module _ (aead : Aead) (random : W → Option Bytes) where
    -- InternalKeyManager; `master_key` is that of the tenant.
    unfoldable pub internal_key_manager : Bytes → KeyProvider W
    unfolding from_secret_key
    internal_key_manager master_key = record {
      find_by_entity_id = λ entity_id. map_error (map_fault api_of_merchant) (
          map_exec (λ merchant. from_secret_key aead random merchant.enc_key)
            (db.find_by_merchant_id entity_id master_key));
      find_or_create_entity = λ entity_id. map_error (map_fault api_of_merchant) (
          map_exec (λ merchant. from_secret_key aead random merchant.enc_key)
            (find_then_create entity_id master_key));
      create_entity = λ entity_id. map_error (map_fault api_of_merchant) (
          map_exec
            (λ merchant. record {
              entity_id = merchant.merchant_id;
              created_at = merchant.created_at;
            })
            (find_or_create entity_id master_key));
    }

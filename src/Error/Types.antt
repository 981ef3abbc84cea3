-- ===== src/Error/Types.antt =====
-- The error enums of error.rs and error/custom_error.rs that the storage and API layers use. The
-- payload of an error of another library is dropped; a `&'static str` is kept.
use hyperswitch_card_vault.Common.{String}

pub data CryptoError : Type 0 where
  serde_json_error jw_error : CryptoError
  invalid_data : String → CryptoError
  encoding_error encryption_error decryption_error not_implemented : CryptoError

pub data StorageError : Type 0 where
  db_pool_error pool_client_failure find_error insert_error delete_error decryption_error
        encryption_error not_found_error update_error replica_pool_not_configured :
      StorageError

pub data ApiError : Type 0 where
  retrieve_data_failed : String → ApiError
  decrypting_keys_failed : String → ApiError
  request_middleware_error : String → ApiError
  response_middleware_error : String → ApiError
  encoding_error decoding_error : ApiError
  database_insert_failed : String → ApiError
  database_delete_failed : String → ApiError
  merchant_error unknown_error merchant_key_error database_error : ApiError
  validation_error : String → ApiError
  not_found_error invalid_ttl custodian_locked custodian_unlocked : ApiError
  tenant_error : String → ApiError
  key_manager_error : String → ApiError

pub data MerchantDbError : Type 0 where
  dek_encryption_error dek_decryption_error db_error db_filter_error db_insert_error not_found_error
        duplicate unknown_error :
      MerchantDbError

pub data VaultDbError : Type 0 where
  data_encryption_error data_decryption_error db_error db_filter_error db_insert_error
        db_delete_error not_found_error duplicate unknown_error :
      VaultDbError

pub data HashDbError : Type 0 where
  db_error db_filter_error db_insert_error duplicate unknown_error : HashDbError

pub data TestDbError : Type 0 where
  db_error db_write_error db_read_error db_delete_error unknown_error db_replica_not_configured :
      TestDbError

pub data FingerprintDbError : Type 0 where
  db_error db_filter_error db_insert_error duplicate unknown_error encoding_error :
      FingerprintDbError

pub data EntityDbError : Type 0 where
  db_error db_filter_error db_insert_error unknown_error not_found_error duplicate : EntityDbError

pub data ReverseLookupDbError : Type 0 where
  db_error db_filter_error db_insert_error not_found_error duplicate unknown_error :
      ReverseLookupDbError

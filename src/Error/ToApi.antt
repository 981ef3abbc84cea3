-- ===== src/Error/ToApi.antt =====
-- The conversions into `ApiError` of error/transforms.rs, but that of a `CryptoError`.
use hyperswitch_card_vault.Error.Types.{
  ApiError, EntityDbError, FingerprintDbError, HashDbError, MerchantDbError, ReverseLookupDbError,
  TestDbError, VaultDbError,
}
use hyperswitch_card_vault.Error.Remote.{KeyManagerError}

unfoldable pub api_of_fingerprint : FingerprintDbError → ApiError
api_of_fingerprint FingerprintDbError.encoding_error = ApiError.encoding_error
api_of_fingerprint FingerprintDbError.db_error = ApiError.database_error
api_of_fingerprint FingerprintDbError.db_filter_error = ApiError.retrieve_data_failed "fingerprint"
api_of_fingerprint FingerprintDbError.db_insert_error =
    ApiError.database_insert_failed "fingerprint"
api_of_fingerprint FingerprintDbError.duplicate = ApiError.database_insert_failed "fingerprint"
api_of_fingerprint FingerprintDbError.unknown_error = ApiError.unknown_error

unfoldable pub api_of_merchant : MerchantDbError → ApiError
api_of_merchant MerchantDbError.dek_encryption_error = ApiError.merchant_error
api_of_merchant MerchantDbError.dek_decryption_error = ApiError.merchant_error
api_of_merchant MerchantDbError.db_error = ApiError.merchant_error
api_of_merchant MerchantDbError.db_filter_error = ApiError.merchant_error
api_of_merchant MerchantDbError.duplicate = ApiError.merchant_error
api_of_merchant MerchantDbError.db_insert_error = ApiError.merchant_error
api_of_merchant MerchantDbError.not_found_error = ApiError.not_found_error
api_of_merchant MerchantDbError.unknown_error = ApiError.unknown_error

unfoldable pub api_of_vault : VaultDbError → ApiError
api_of_vault VaultDbError.data_encryption_error = ApiError.merchant_key_error
api_of_vault VaultDbError.data_decryption_error = ApiError.merchant_key_error
api_of_vault VaultDbError.db_error = ApiError.database_error
api_of_vault VaultDbError.db_filter_error = ApiError.retrieve_data_failed "locker"
api_of_vault VaultDbError.db_insert_error = ApiError.database_insert_failed "locker"
api_of_vault VaultDbError.db_delete_error = ApiError.database_delete_failed "locker"
api_of_vault VaultDbError.unknown_error = ApiError.unknown_error
api_of_vault VaultDbError.not_found_error = ApiError.not_found_error
api_of_vault VaultDbError.duplicate = ApiError.database_insert_failed "locker"

unfoldable pub api_of_hash : HashDbError → ApiError
api_of_hash HashDbError.db_error = ApiError.database_error
api_of_hash HashDbError.db_filter_error = ApiError.retrieve_data_failed "hash table"
api_of_hash HashDbError.db_insert_error = ApiError.database_insert_failed "hash table"
api_of_hash HashDbError.duplicate = ApiError.database_insert_failed "hash table"
api_of_hash HashDbError.unknown_error = ApiError.unknown_error

unfoldable pub api_of_test : TestDbError → ApiError
api_of_test TestDbError.db_error = ApiError.database_error
api_of_test TestDbError.unknown_error = ApiError.unknown_error
api_of_test TestDbError.db_write_error = ApiError.database_insert_failed "TestFailed"
api_of_test TestDbError.db_read_error = ApiError.retrieve_data_failed "Test Failed"
api_of_test TestDbError.db_delete_error = ApiError.database_delete_failed "Test Failed"
api_of_test TestDbError.db_replica_not_configured = ApiError.database_error

unfoldable pub api_of_entity : EntityDbError → ApiError
api_of_entity EntityDbError.db_error = ApiError.database_error
api_of_entity EntityDbError.db_filter_error = ApiError.retrieve_data_failed "entity"
api_of_entity EntityDbError.db_insert_error = ApiError.database_insert_failed "entity"
api_of_entity EntityDbError.duplicate = ApiError.database_insert_failed "entity"
api_of_entity EntityDbError.unknown_error = ApiError.unknown_error
api_of_entity EntityDbError.not_found_error = ApiError.not_found_error

unfoldable pub api_of_reverse_lookup : ReverseLookupDbError → ApiError
api_of_reverse_lookup ReverseLookupDbError.db_error = ApiError.database_error
api_of_reverse_lookup ReverseLookupDbError.db_filter_error =
    ApiError.retrieve_data_failed "reverse lookup"
api_of_reverse_lookup ReverseLookupDbError.db_insert_error =
    ApiError.database_insert_failed "reverse lookup"
api_of_reverse_lookup ReverseLookupDbError.duplicate =
    ApiError.database_insert_failed "reverse lookup"
api_of_reverse_lookup ReverseLookupDbError.not_found_error = ApiError.not_found_error
api_of_reverse_lookup ReverseLookupDbError.unknown_error = ApiError.unknown_error

unfoldable pub api_of_key_manager : KeyManagerError → ApiError
api_of_key_manager KeyManagerError.key_add_failed =
    ApiError.key_manager_error "Failed to add key to the Key manager"
api_of_key_manager KeyManagerError.key_transfer_failed =
    ApiError.key_manager_error "Failed to transfer the key to the Key manager"
api_of_key_manager KeyManagerError.encryption_failed =
    ApiError.key_manager_error "Failed to encrypt the data in the Key manager"
api_of_key_manager KeyManagerError.decryption_failed =
    ApiError.key_manager_error "Failed to decrypt the data in the Key manager"
api_of_key_manager KeyManagerError.db_error = ApiError.key_manager_error "Database error"
api_of_key_manager KeyManagerError.response_decoding_failed =
    ApiError.key_manager_error "Failed to deserialize from bytes"
api_of_key_manager KeyManagerError.unauthorized = ApiError.tenant_error "Invalid master key"
api_of_key_manager (KeyManagerError.missing_configuration_error _) =
    ApiError.tenant_error "Missing configuration"

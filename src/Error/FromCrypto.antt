-- ===== src/Error/FromCrypto.antt =====
-- `From<&CryptoError>` of error/transforms.rs.
use hyperswitch_card_vault.Error.Types.{
  ApiError, CryptoError, EntityDbError, FingerprintDbError, HashDbError, MerchantDbError,
  VaultDbError,
}

unfoldable pub merchant_of_crypto : CryptoError → MerchantDbError
merchant_of_crypto CryptoError.serde_json_error = MerchantDbError.unknown_error
merchant_of_crypto CryptoError.jw_error = MerchantDbError.unknown_error
merchant_of_crypto (CryptoError.invalid_data _) = MerchantDbError.unknown_error
merchant_of_crypto CryptoError.encoding_error = MerchantDbError.unknown_error
merchant_of_crypto CryptoError.not_implemented = MerchantDbError.unknown_error
merchant_of_crypto CryptoError.encryption_error = MerchantDbError.dek_encryption_error
merchant_of_crypto CryptoError.decryption_error = MerchantDbError.dek_decryption_error

unfoldable pub vault_of_crypto : CryptoError → VaultDbError
vault_of_crypto CryptoError.serde_json_error = VaultDbError.unknown_error
vault_of_crypto CryptoError.jw_error = VaultDbError.unknown_error
vault_of_crypto (CryptoError.invalid_data _) = VaultDbError.unknown_error
vault_of_crypto CryptoError.encoding_error = VaultDbError.unknown_error
vault_of_crypto CryptoError.not_implemented = VaultDbError.unknown_error
vault_of_crypto CryptoError.encryption_error = VaultDbError.data_encryption_error
vault_of_crypto CryptoError.decryption_error = VaultDbError.data_decryption_error

unfoldable pub fingerprint_of_crypto : CryptoError → FingerprintDbError
fingerprint_of_crypto CryptoError.serde_json_error = FingerprintDbError.unknown_error
fingerprint_of_crypto CryptoError.jw_error = FingerprintDbError.unknown_error
fingerprint_of_crypto (CryptoError.invalid_data _) = FingerprintDbError.unknown_error
fingerprint_of_crypto CryptoError.not_implemented = FingerprintDbError.unknown_error
fingerprint_of_crypto CryptoError.encryption_error = FingerprintDbError.unknown_error
fingerprint_of_crypto CryptoError.decryption_error = FingerprintDbError.unknown_error
fingerprint_of_crypto CryptoError.encoding_error = FingerprintDbError.encoding_error

unfoldable pub hash_of_crypto : CryptoError → HashDbError
hash_of_crypto CryptoError.serde_json_error = HashDbError.unknown_error
hash_of_crypto CryptoError.jw_error = HashDbError.unknown_error
hash_of_crypto (CryptoError.invalid_data _) = HashDbError.unknown_error
hash_of_crypto CryptoError.encoding_error = HashDbError.unknown_error
hash_of_crypto CryptoError.not_implemented = HashDbError.unknown_error
hash_of_crypto CryptoError.encryption_error = HashDbError.unknown_error
hash_of_crypto CryptoError.decryption_error = HashDbError.unknown_error

unfoldable pub api_of_crypto : CryptoError → ApiError
api_of_crypto CryptoError.serde_json_error = ApiError.decoding_error
api_of_crypto CryptoError.decryption_error =
    ApiError.request_middleware_error "Failed while encrypting/decrypting"
api_of_crypto CryptoError.jw_error =
    ApiError.request_middleware_error "Failed while encrypting/decrypting"
api_of_crypto (CryptoError.invalid_data _) = ApiError.decoding_error
api_of_crypto CryptoError.encoding_error = ApiError.encoding_error
api_of_crypto CryptoError.encryption_error =
    ApiError.response_middleware_error "Failed while encrypting response"
api_of_crypto CryptoError.not_implemented = ApiError.unknown_error

unfoldable pub entity_of_crypto : CryptoError → EntityDbError
entity_of_crypto CryptoError.serde_json_error = EntityDbError.unknown_error
entity_of_crypto CryptoError.jw_error = EntityDbError.unknown_error
entity_of_crypto (CryptoError.invalid_data _) = EntityDbError.unknown_error
entity_of_crypto CryptoError.not_implemented = EntityDbError.unknown_error
entity_of_crypto CryptoError.encryption_error = EntityDbError.unknown_error
entity_of_crypto CryptoError.decryption_error = EntityDbError.unknown_error
entity_of_crypto CryptoError.encoding_error = EntityDbError.unknown_error

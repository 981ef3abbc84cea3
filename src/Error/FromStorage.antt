-- ===== src/Error/FromStorage.antt =====
-- `From<&StorageError>` of error/transforms.rs.
use hyperswitch_card_vault.Error.Types.{
  EntityDbError, FingerprintDbError, HashDbError, MerchantDbError, ReverseLookupDbError,
  StorageError, TestDbError, VaultDbError,
}

unfoldable pub merchant_of_storage : StorageError → MerchantDbError
merchant_of_storage StorageError.db_pool_error = MerchantDbError.db_error
merchant_of_storage StorageError.pool_client_failure = MerchantDbError.db_error
merchant_of_storage StorageError.replica_pool_not_configured = MerchantDbError.db_error
merchant_of_storage StorageError.find_error = MerchantDbError.db_filter_error
merchant_of_storage StorageError.decryption_error = MerchantDbError.unknown_error
merchant_of_storage StorageError.encryption_error = MerchantDbError.unknown_error
merchant_of_storage StorageError.delete_error = MerchantDbError.unknown_error
merchant_of_storage StorageError.insert_error = MerchantDbError.db_insert_error
merchant_of_storage StorageError.update_error = MerchantDbError.db_insert_error
merchant_of_storage StorageError.not_found_error = MerchantDbError.not_found_error

unfoldable pub vault_of_storage : StorageError → VaultDbError
vault_of_storage StorageError.db_pool_error = VaultDbError.db_error
vault_of_storage StorageError.pool_client_failure = VaultDbError.db_error
vault_of_storage StorageError.replica_pool_not_configured = VaultDbError.db_error
vault_of_storage StorageError.find_error = VaultDbError.db_filter_error
vault_of_storage StorageError.decryption_error = VaultDbError.unknown_error
vault_of_storage StorageError.encryption_error = VaultDbError.unknown_error
vault_of_storage StorageError.insert_error = VaultDbError.db_insert_error
vault_of_storage StorageError.update_error = VaultDbError.db_insert_error
vault_of_storage StorageError.delete_error = VaultDbError.db_delete_error
vault_of_storage StorageError.not_found_error = VaultDbError.not_found_error

unfoldable pub hash_of_storage : StorageError → HashDbError
hash_of_storage StorageError.db_pool_error = HashDbError.db_error
hash_of_storage StorageError.pool_client_failure = HashDbError.db_error
hash_of_storage StorageError.replica_pool_not_configured = HashDbError.db_error
hash_of_storage StorageError.find_error = HashDbError.db_filter_error
hash_of_storage StorageError.decryption_error = HashDbError.unknown_error
hash_of_storage StorageError.encryption_error = HashDbError.unknown_error
hash_of_storage StorageError.delete_error = HashDbError.unknown_error
hash_of_storage StorageError.insert_error = HashDbError.db_insert_error
hash_of_storage StorageError.update_error = HashDbError.db_insert_error
hash_of_storage StorageError.not_found_error = HashDbError.db_filter_error

unfoldable pub test_of_storage : StorageError → TestDbError
test_of_storage StorageError.db_pool_error = TestDbError.db_error
test_of_storage StorageError.pool_client_failure = TestDbError.db_error
test_of_storage StorageError.find_error = TestDbError.db_read_error
test_of_storage StorageError.insert_error = TestDbError.db_write_error
test_of_storage StorageError.update_error = TestDbError.db_write_error
test_of_storage StorageError.delete_error = TestDbError.db_delete_error
test_of_storage StorageError.decryption_error = TestDbError.unknown_error
test_of_storage StorageError.encryption_error = TestDbError.unknown_error
test_of_storage StorageError.not_found_error = TestDbError.unknown_error
test_of_storage StorageError.replica_pool_not_configured = TestDbError.db_replica_not_configured

unfoldable pub fingerprint_of_storage : StorageError → FingerprintDbError
fingerprint_of_storage StorageError.db_pool_error = FingerprintDbError.db_error
fingerprint_of_storage StorageError.pool_client_failure = FingerprintDbError.db_error
fingerprint_of_storage StorageError.replica_pool_not_configured = FingerprintDbError.db_error
fingerprint_of_storage StorageError.find_error = FingerprintDbError.db_filter_error
fingerprint_of_storage StorageError.not_found_error = FingerprintDbError.db_filter_error
fingerprint_of_storage StorageError.decryption_error = FingerprintDbError.unknown_error
fingerprint_of_storage StorageError.encryption_error = FingerprintDbError.unknown_error
fingerprint_of_storage StorageError.delete_error = FingerprintDbError.unknown_error
fingerprint_of_storage StorageError.insert_error = FingerprintDbError.db_insert_error
fingerprint_of_storage StorageError.update_error = FingerprintDbError.db_insert_error

unfoldable pub entity_of_storage : StorageError → EntityDbError
entity_of_storage StorageError.db_pool_error = EntityDbError.db_error
entity_of_storage StorageError.pool_client_failure = EntityDbError.db_error
entity_of_storage StorageError.replica_pool_not_configured = EntityDbError.db_error
entity_of_storage StorageError.find_error = EntityDbError.db_filter_error
entity_of_storage StorageError.not_found_error = EntityDbError.not_found_error
entity_of_storage StorageError.decryption_error = EntityDbError.unknown_error
entity_of_storage StorageError.encryption_error = EntityDbError.unknown_error
entity_of_storage StorageError.delete_error = EntityDbError.unknown_error
entity_of_storage StorageError.insert_error = EntityDbError.db_insert_error
entity_of_storage StorageError.update_error = EntityDbError.db_insert_error

unfoldable pub reverse_lookup_of_storage : StorageError → ReverseLookupDbError
reverse_lookup_of_storage StorageError.db_pool_error = ReverseLookupDbError.db_error
reverse_lookup_of_storage StorageError.pool_client_failure = ReverseLookupDbError.db_error
reverse_lookup_of_storage StorageError.replica_pool_not_configured = ReverseLookupDbError.db_error
reverse_lookup_of_storage StorageError.find_error = ReverseLookupDbError.db_filter_error
reverse_lookup_of_storage StorageError.not_found_error = ReverseLookupDbError.not_found_error
reverse_lookup_of_storage StorageError.decryption_error = ReverseLookupDbError.unknown_error
reverse_lookup_of_storage StorageError.encryption_error = ReverseLookupDbError.unknown_error
reverse_lookup_of_storage StorageError.delete_error = ReverseLookupDbError.unknown_error
reverse_lookup_of_storage StorageError.insert_error = ReverseLookupDbError.db_insert_error
reverse_lookup_of_storage StorageError.update_error = ReverseLookupDbError.db_insert_error

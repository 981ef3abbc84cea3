-- ===== src/Error/Classify.antt =====
-- `StorageErrorExt` and `impl_storage_error!` of error/custom_error.rs: what the storage layer makes
-- of a database error, and how the domain layer tells a duplicate from a missing row.
use hyperswitch_card_vault.Common.{Bool, true, false}
use hyperswitch_card_vault.Error.Types.{
  VaultDbError, MerchantDbError, FingerprintDbError, HashDbError, EntityDbError,
  ReverseLookupDbError,
}

-- The cases of `diesel::result::Error` that the classifier tells apart.
pub data DieselError : Type 0 where
  not_found unique_violation other : DieselError

-- The trait, with the conversion that the macro adds to it.
pub record StorageErrorExt (E : Type 0) : Type 0 where
  pub is_duplicate : E → Bool
  pub is_not_found : E → Bool
  pub of_diesel : DieselError → E

module _ {E : Type 0} (is_duplicate is_not_found : E → Bool) (duplicate not_found other : E) where
  -- The macro: the three variants, and the two `matches!` on them.
  abbrev impl_storage_error : StorageErrorExt E
  impl_storage_error = record {
    is_duplicate = is_duplicate;
    is_not_found = is_not_found;
    of_diesel = elim [
      | DieselError.not_found ↦ not_found
      | DieselError.unique_violation ↦ duplicate
      | DieselError.other ↦ other
    ];
  }

abbrev vault_duplicate : VaultDbError → Bool
vault_duplicate VaultDbError.duplicate = true
vault_duplicate _ = false

abbrev vault_not_found : VaultDbError → Bool
vault_not_found VaultDbError.not_found_error = true
vault_not_found _ = false

abbrev pub vault_errors : StorageErrorExt VaultDbError
vault_errors =
    impl_storage_error vault_duplicate vault_not_found VaultDbError.duplicate
      VaultDbError.not_found_error VaultDbError.db_error

abbrev merchant_duplicate : MerchantDbError → Bool
merchant_duplicate MerchantDbError.duplicate = true
merchant_duplicate _ = false

abbrev merchant_not_found : MerchantDbError → Bool
merchant_not_found MerchantDbError.not_found_error = true
merchant_not_found _ = false

abbrev pub merchant_errors : StorageErrorExt MerchantDbError
merchant_errors =
    impl_storage_error merchant_duplicate merchant_not_found MerchantDbError.duplicate
      MerchantDbError.not_found_error MerchantDbError.db_error

abbrev fingerprint_duplicate : FingerprintDbError → Bool
fingerprint_duplicate FingerprintDbError.duplicate = true
fingerprint_duplicate _ = false

abbrev fingerprint_not_found : FingerprintDbError → Bool
fingerprint_not_found FingerprintDbError.db_filter_error = true
fingerprint_not_found _ = false

abbrev pub fingerprint_errors : StorageErrorExt FingerprintDbError
fingerprint_errors =
    impl_storage_error fingerprint_duplicate fingerprint_not_found FingerprintDbError.duplicate
      FingerprintDbError.db_filter_error FingerprintDbError.db_error

abbrev hash_duplicate : HashDbError → Bool
hash_duplicate HashDbError.duplicate = true
hash_duplicate _ = false

abbrev hash_not_found : HashDbError → Bool
hash_not_found HashDbError.db_filter_error = true
hash_not_found _ = false

abbrev pub hash_errors : StorageErrorExt HashDbError
hash_errors =
    impl_storage_error hash_duplicate hash_not_found HashDbError.duplicate
      HashDbError.db_filter_error HashDbError.db_error

abbrev entity_duplicate : EntityDbError → Bool
entity_duplicate EntityDbError.duplicate = true
entity_duplicate _ = false

abbrev entity_not_found : EntityDbError → Bool
entity_not_found EntityDbError.not_found_error = true
entity_not_found _ = false

abbrev pub entity_errors : StorageErrorExt EntityDbError
entity_errors =
    impl_storage_error entity_duplicate entity_not_found EntityDbError.duplicate
      EntityDbError.not_found_error EntityDbError.db_error

abbrev reverse_lookup_duplicate : ReverseLookupDbError → Bool
reverse_lookup_duplicate ReverseLookupDbError.duplicate = true
reverse_lookup_duplicate _ = false

abbrev reverse_lookup_not_found : ReverseLookupDbError → Bool
reverse_lookup_not_found ReverseLookupDbError.not_found_error = true
reverse_lookup_not_found _ = false

abbrev pub reverse_lookup_errors : StorageErrorExt ReverseLookupDbError
reverse_lookup_errors =
    impl_storage_error reverse_lookup_duplicate reverse_lookup_not_found
      ReverseLookupDbError.duplicate ReverseLookupDbError.not_found_error
      ReverseLookupDbError.db_error

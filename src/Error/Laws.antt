-- ===== src/Error/Laws.antt =====
-- What the error conversions promise: which failures a client sees as 404, and which the domain layer
-- takes for a missing or a duplicate row.
use hyperswitch_card_vault.Common.{ℕ, List, ◌≡◌, ◌≢◌, ◌↔◌, Bool, true, false, arith}
use hyperswitch_card_vault.Error.Types.{
  ApiError, VaultDbError, MerchantDbError, FingerprintDbError, HashDbError, EntityDbError,
  ReverseLookupDbError, StorageError,
}
use hyperswitch_card_vault.Error.Remote.{ApiClientError, KeyManagerError}
use hyperswitch_card_vault.Error.KeyManager.{
  key_manager_of_key_creation, key_creation_of_api_client, key_manager_of_key_transfer,
  key_transfer_of_api_client, key_manager_of_encryption, encryption_of_api_client,
  key_manager_of_decryption, decryption_of_api_client,
}
use hyperswitch_card_vault.Error.Classify.{
  DieselError, StorageErrorExt, vault_errors, merchant_errors, fingerprint_errors, hash_errors,
  entity_errors, reverse_lookup_errors,
}
use hyperswitch_card_vault.Error.FromStorage.{
  vault_of_storage, merchant_of_storage, entity_of_storage, reverse_lookup_of_storage,
  hash_of_storage, fingerprint_of_storage,
}
use hyperswitch_card_vault.Error.ToApi.{
  api_of_vault, api_of_merchant, api_of_entity, api_of_reverse_lookup, api_of_hash,
  api_of_fingerprint,
}
use hyperswitch_card_vault.Error.Response.{into_response}

abbrev status_of : ApiError → ℕ
status_of e = (into_response e).status

-- A client sees 404 for an error of the vault, merchant, entity or reverse lookup table exactly when
-- the table reports a missing row, and never for an error of the hash or fingerprint table.
pub not_found_rows :
    ((e : VaultDbError) → (status_of (api_of_vault e) ≡ 404) ↔ (e ≡ VaultDbError.not_found_error))
    × ((e : MerchantDbError)
        → (status_of (api_of_merchant e) ≡ 404) ↔ (e ≡ MerchantDbError.not_found_error))
    × ((e : EntityDbError)
        → (status_of (api_of_entity e) ≡ 404) ↔ (e ≡ EntityDbError.not_found_error))
    × ((e : ReverseLookupDbError)
        → (status_of (api_of_reverse_lookup e) ≡ 404) ↔ (e ≡ ReverseLookupDbError.not_found_error))
    × ((e : HashDbError) → status_of (api_of_hash e) ≢ 404)
    × ((e : FingerprintDbError) → status_of (api_of_fingerprint e) ≢ 404)
unfolding into_response api_of_vault api_of_merchant api_of_entity api_of_reverse_lookup api_of_hash
    api_of_fingerprint
not_found_rows = (
  λ e. ground arith,
  λ e. ground arith,
  λ e. ground arith,
  λ e. ground arith,
  λ e. ground arith,
  λ e. ground arith,
)

-- The classifier of a table's error: a missing row is not-found and nothing else is, a unique
-- violation is a duplicate and nothing else is.
abbrev Classifies : {E : Type 0} → StorageErrorExt E → Type 0
Classifies x =
    (d : DieselError)
    → ((x.is_not_found (x.of_diesel d) ≡ true) ↔ (d ≡ DieselError.not_found))
      × ((x.is_duplicate (x.of_diesel d) ≡ true) ↔ (d ≡ DieselError.unique_violation))

-- In each of the six tables the classifier answers not-found exactly for a missing row, and duplicate
-- exactly for a unique violation.
pub classifiers :
    Classifies vault_errors
    × Classifies merchant_errors
    × Classifies fingerprint_errors
    × Classifies hash_errors
    × Classifies entity_errors
    × Classifies reverse_lookup_errors
classifiers = (
  λ d. ground arith,
  λ d. ground arith,
  λ d. ground arith,
  λ d. ground arith,
  λ d. ground arith,
  λ d. ground arith,
)

-- No connection was had: the pool failed, or there is no replica pool.
unfoldable pub is_connection_failure : StorageError → Bool
is_connection_failure StorageError.db_pool_error = true
is_connection_failure StorageError.pool_client_failure = true
is_connection_failure StorageError.replica_pool_not_configured = true
is_connection_failure _ = false

-- A table's error is taken neither for a missing row nor for a duplicate.
abbrev pub NotMistaken : {E : Type 0} → StorageErrorExt E → E → Type 0
NotMistaken x e = (x.is_not_found e ≡ false) × (x.is_duplicate e ≡ false)

-- In each of the six tables a connection failure is taken neither for a missing row nor for a
-- duplicate, so that no handler creates a row because the database was out of reach.
pub connection_failures :
    (e : StorageError)
    → is_connection_failure e ≡ true
    → NotMistaken vault_errors (vault_of_storage e)
      × NotMistaken merchant_errors (merchant_of_storage e)
      × NotMistaken fingerprint_errors (fingerprint_of_storage e)
      × NotMistaken hash_errors (hash_of_storage e)
      × NotMistaken entity_errors (entity_of_storage e)
      × NotMistaken reverse_lookup_errors (reverse_lookup_of_storage e)
unfolding is_connection_failure vault_of_storage merchant_of_storage fingerprint_of_storage
    hash_of_storage entity_of_storage reverse_lookup_of_storage
connection_failures e h =
    (ground arith, ground arith, ground arith, ground arith, ground arith, ground arith)

-- Each call of the key manager ends in an authentication failure exactly when the HTTP client met one.
pub auth_failures :
    (e : ApiClientError)
    → ((key_manager_of_key_creation (key_creation_of_api_client e) ≡ KeyManagerError.unauthorized)
        ↔ ((b : List ℕ) × (e ≡ ApiClientError.unauthorized b)))
      × ((key_manager_of_key_transfer (key_transfer_of_api_client e) ≡ KeyManagerError.unauthorized)
          ↔ ((b : List ℕ) × (e ≡ ApiClientError.unauthorized b)))
      × ((key_manager_of_encryption (encryption_of_api_client e) ≡ KeyManagerError.unauthorized)
          ↔ ((b : List ℕ) × (e ≡ ApiClientError.unauthorized b)))
      × ((key_manager_of_decryption (decryption_of_api_client e) ≡ KeyManagerError.unauthorized)
          ↔ ((b : List ℕ) × (e ≡ ApiClientError.unauthorized b)))
unfolding key_manager_of_key_creation key_creation_of_api_client key_manager_of_key_transfer
    key_transfer_of_api_client key_manager_of_encryption encryption_of_api_client
    key_manager_of_decryption decryption_of_api_client
auth_failures e = ground arith

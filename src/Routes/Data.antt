-- ===== src/Routes/Data.antt =====
-- routes/data.rs and routes/data/crypto_operation.rs: the data routes of version 1. Metrics and logs are
-- left out; a panic is told from an error.
use hyperswitch_card_vault.Common.{
  ℕ, Bool, Option, none, some, Text, Result, ok, err, map_err, ok_or, Fault, raised, Exec,
  map_error, map_exec, pure, ltb, if◌then◌else◌, ◌>>=◌, ◌>>◌,
}
use hyperswitch_card_vault.Error.Types.{ApiError, CryptoError, VaultDbError}
use hyperswitch_card_vault.Error.ToApi.{api_of_fingerprint, api_of_hash, api_of_vault}
use hyperswitch_card_vault.Storage.Scheme.{StorageScheme}
use hyperswitch_card_vault.Storage.Rows.{
  Bytes, Time, Encryptable, Locker, LockerNew, HashTable, get_encrypted_inner_value,
  from_decrypted_data,
}
use hyperswitch_card_vault.Domain.{
  HashInterface, LockerInterface, FingerprintInterface, insert_or_get, get_or_insert_locker,
  get_or_insert,
}
use hyperswitch_card_vault.KeyManager.{KeyProvider, CryptoOperationsManager}
use hyperswitch_card_vault.Routes.Types.{
  RequestData, StoredData, StoreCardRequest, StoreCardResponse, RetrieveCardRequest,
  RetrieveCardResponse, DeleteCardResponse, Status, validate_store,
}
use hyperswitch_card_vault.Routes.Transformers.{
  Codec, store_card_response, retrieve_card_response, get_hash, get_data_duplication_status,
}

-- What the handlers take from outside: the clock, the generated identifiers, the spawning of a task
-- whose result is dropped, and the test for a white character.
pub record Runtime (W : Type 0) : Type 0 where
  pub now : W → Time
  pub generate_uuid : W → Text
  pub generate_nano_id : W → Text
  pub spawn : Exec W VaultDbError ℕ → W → W
  pub is_whitespace : ℕ → Bool

-- The stores and the key manager of a tenant.
pub record TenantState (W : Type 0) : Type 0 where
  pub hashes : HashInterface W
  pub lockers : LockerInterface W
  pub fingerprints : FingerprintInterface W
  pub keys : KeyProvider W

-- LockerNew::new
unfoldable pub locker_new : StoreCardRequest → Text → Bytes → Text → Time → LockerNew
locker_new request hash_id enc_data uuid now = record {
  locker_id = elim request.requestor_card_reference [ none ↦ uuid | some reference ↦ reference ];
  merchant_id = request.merchant_id;
  customer_id = request.merchant_customer_id;
  enc_data = enc_data;
  created_at = now;
  hash_id = hash_id;
  ttl = request.ttl;
  updated_by = some StorageScheme.postgres_only;
}

unfoldable pub stored_of_request : RequestData → StoredData
stored_of_request (RequestData.card card) = StoredData.card_data card
stored_of_request (RequestData.enc_data enc_card_data) = StoredData.enc_data enc_card_data

module _ {W : Type 0} where
  -- decrypt_data, on the data of a row of either table.
  unfoldable pub decrypt_data :
      CryptoOperationsManager W → Encryptable → Exec W (Fault ApiError) Encryptable
  decrypt_data crypto_operator content = elim (get_encrypted_inner_value content) [
    | none ↦ pure (ok content)
    | some encrypted_data ↦
        map_exec from_decrypted_data (crypto_operator.decrypt_data encrypted_data)
  ]

  unfoldable pub decrypt_locker :
      CryptoOperationsManager W → Locker → Exec W (Fault ApiError) Locker
  unfolding decrypt_data
  decrypt_locker crypto_operator locker =
      map_exec (λ content. record locker { content = content })
        (decrypt_data crypto_operator locker.content)

  -- The test of the time to live of a row that was read: an expired row is missing, and its deletion
  -- is spawned.
  unfoldable pub check_expiry :
      Runtime W → Exec W VaultDbError ℕ → Option Time → Exec W (Fault ApiError) (Unit {0})
  check_expiry runtime delete none w = (ok tt, w)
  check_expiry runtime delete (some ttl) w =
      if ltb ttl (runtime.now w)
      then (err (raised ApiError.not_found_error), runtime.spawn delete w)
      else (ok tt, w)

module _ {W : Type 0} (runtime : Runtime W) (codec : Codec) (state : TenantState W) where
  unfoldable pub encrypt_data_and_insert_into_db :
      CryptoOperationsManager W → StoreCardRequest → Text → Exec W (Fault ApiError) Locker
  unfolding locker_new stored_of_request
  encrypt_data_and_insert_into_db crypto_operator request hash_id = do
    data_to_be_encrypted ← pure (
        ok_or (raised ApiError.encoding_error)
          (codec.stored_to_vec (stored_of_request request.content)))
    encrypted_data ← crypto_operator.encrypt_data data_to_be_encrypted
    map_error (λ e. raised (api_of_vault e))
        (λ w.
          get_or_insert_locker state.lockers
            (locker_new request hash_id encrypted_data (runtime.generate_uuid w) (runtime.now w)) w)

  -- The rest of `add_card` for a hash that is known, with the row of the customer for it.
  unfoldable pub add_stored :
      StoreCardRequest
      → HashTable
      → CryptoOperationsManager W
      → Option Locker
      → Exec W (Fault ApiError) StoreCardResponse
  add_stored request hash_table crypto_manager (some locker) = do
    decrypted_locker_data ← decrypt_locker crypto_manager locker
    duplication_check ←
        pure
          (map_err raised (get_data_duplication_status codec decrypted_locker_data request.content))
    pure (ok (store_card_response (some duplication_check) decrypted_locker_data))
  add_stored request hash_table crypto_manager none =
      map_exec (store_card_response none)
        (encrypt_data_and_insert_into_db crypto_manager request hash_table.hash_id)

  unfoldable pub add_hashed :
      StoreCardRequest
      → Bytes
      → CryptoOperationsManager W
      → Option HashTable
      → Exec W (Fault ApiError) StoreCardResponse
  unfolding add_stored
  add_hashed request hash_data crypto_manager (some hash_table) = do
    stored_data ←
        map_error (λ e. raised (api_of_vault e))
          (state.lockers.find_optional_by_hash_id_merchant_id_customer_id hash_table.hash_id
            request.merchant_id request.merchant_customer_id)
    add_stored request hash_table crypto_manager stored_data
  add_hashed request hash_data crypto_manager none = do
    hash_table ← map_error (λ e. raised (api_of_hash e)) (insert_or_get state.hashes hash_data)
    map_exec (store_card_response none)
        (encrypt_data_and_insert_into_db crypto_manager request hash_table.hash_id)

  unfoldable pub add_card : StoreCardRequest → Exec W (Fault ApiError) StoreCardResponse
  unfolding add_hashed
  add_card request = do
    (λ w. (map_err raised (validate_store runtime.is_whitespace (runtime.now w) request), w))
    hash_data ←
        pure (map_err (λ _. raised ApiError.encoding_error) (get_hash codec request.content))
    optional_hash_table ←
        map_error (λ e. raised (api_of_hash e)) (state.hashes.find_optional_by_data_hash hash_data)
    crypto_manager ← state.keys.find_or_create_entity request.merchant_id
    add_hashed request hash_data crypto_manager optional_hash_table

  unfoldable pub delete_card : RetrieveCardRequest → Exec W (Fault ApiError) DeleteCardResponse
  delete_card request = do
    entity ← state.keys.find_by_entity_id request.merchant_id
    delete_status ←
        map_error (λ e. raised (api_of_vault e))
          (state.lockers.delete_locker request.card_reference request.merchant_id
            request.merchant_customer_id)
    pure (ok (record { status = Status.ok }))

  unfoldable pub retrieve_card : RetrieveCardRequest → Exec W (Fault ApiError) RetrieveCardResponse
  retrieve_card request = do
    crypto_manager ← state.keys.find_by_entity_id request.merchant_id
    locker ←
        map_error (λ e. raised (api_of_vault e))
          (state.lockers.find_by_locker_id_merchant_id_customer_id request.card_reference
            request.merchant_id request.merchant_customer_id)
    decrypted_locker_data ← decrypt_locker crypto_manager locker
    check_expiry runtime
        (state.lockers.delete_locker request.card_reference request.merchant_id
          request.merchant_customer_id)
        decrypted_locker_data.ttl
    pure (map_err raised (retrieve_card_response codec decrypted_locker_data))

  -- `encode` is the HMAC of the crypto library's; the response is the identifier.
  unfoldable pub get_or_insert_fingerprint :
      (Bytes → Bytes → Result CryptoError Bytes)
      → Option Text
      → Bytes
      → Bytes
      → Exec W (Fault ApiError) Text
  get_or_insert_fingerprint encode fingerprint_id content key w =
      map_error (λ e. raised (api_of_fingerprint e))
        (map_exec (λ fingerprint. fingerprint.fingerprint_id)
          (get_or_insert state.fingerprints encode (runtime.generate_nano_id w) content key
            fingerprint_id))
        w

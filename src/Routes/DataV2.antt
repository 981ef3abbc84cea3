-- ===== src/Routes/DataV2.antt =====
-- routes/routes_v2/data.rs and its types.rs, with the part of routes/data/crypto_operation.rs for version
-- 2: the data routes on the vault table. `V` is `serde_json::Value`, with its JSON as parameters.
use hyperswitch_card_vault.Common.{
  Option, none, some, Text, Result, ok, err, map_err, ok_or, Fault, raised, Exec, map_error,
  map_exec, pure, ◌>>=◌, ◌>>◌,
}
use hyperswitch_card_vault.Error.Types.{ApiError}
use hyperswitch_card_vault.Error.ToApi.{api_of_vault}
use hyperswitch_card_vault.Storage.Scheme.{StorageScheme}
use hyperswitch_card_vault.Storage.Rows.{Bytes, Time, get_decrypted_inner_value}
use hyperswitch_card_vault.Storage.Vaults.{Vault, VaultNew}
use hyperswitch_card_vault.Domain.{VaultInterface, get_or_insert_vault}
use hyperswitch_card_vault.Domain
use hyperswitch_card_vault.KeyManager.{KeyProvider, CryptoOperationsManager}
use hyperswitch_card_vault.Routes.Types.{validate_ttl}
use hyperswitch_card_vault.Routes.Data.{Runtime, decrypt_data, check_expiry}

pub record StoreDataRequest (V : Type 0) : Type 0 where
  pub entity_id : Text
  pub vault_id : Text
  pub content : V
  pub ttl : Option Time

pub data WriteMode : Type 0 where
  insert upsert : WriteMode

-- The requests to retrieve and to delete, and the responses to a store and a delete, which have the
-- same fields.
pub record VaultReference : Type 0 where
  pub entity_id : Text
  pub vault_id : Text

pub record ValueCodec (V : Type 0) : Type 0 where
  pub value_to_vec : V → Option Bytes
  pub value_from_slice : Bytes → Option V

-- VaultNew::new
unfoldable pub vault_new : {V : Type 0} → StoreDataRequest V → Bytes → Time → VaultNew
vault_new request encrypted_data now = record {
  vault_id = request.vault_id;
  entity_id = request.entity_id;
  encrypted_data = encrypted_data;
  created_at = now;
  expires_at = request.ttl;
  updated_by = StorageScheme.postgres_only;
}

unfoldable pub decrypt_vault :
    {W : Type 0} → CryptoOperationsManager W → Vault → Exec W (Fault ApiError) Vault
unfolding decrypt_data
decrypt_vault crypto_operator vault =
    map_exec (λ content. record vault { content = content })
      (decrypt_data crypto_operator vault.content)

unfoldable pub store_data_response : Vault → VaultReference
store_data_response value = record { entity_id = value.entity_id; vault_id = value.vault_id }

-- What a decrypted row is to the client.
unfoldable pub retrieved_value : {V : Type 0} → ValueCodec V → Vault → Result ApiError V
retrieved_value codec vault = elim (get_decrypted_inner_value vault.content) [
  | none ↦ err ApiError.unknown_error
  | some decrypted_inner_data ↦
      ok_or ApiError.decoding_error (codec.value_from_slice decrypted_inner_data)
]

-- The insert or the upsert that a mode asks for.
module _ {W : Type 0} (db : VaultInterface W) where
  unfoldable pub write : Option WriteMode → VaultNew → Exec W (Fault ApiError) Vault
  write (some WriteMode.upsert) new =
      map_error (λ e. raised (api_of_vault e)) (Domain.upsert db new)
  write (some WriteMode.insert) new =
      map_error (λ e. raised (api_of_vault e)) (get_or_insert_vault db new)
  write none new = map_error (λ e. raised (api_of_vault e)) (get_or_insert_vault db new)

module _ {W V : Type 0} (runtime : Runtime W) (codec : ValueCodec V) (db : VaultInterface W)
    (keys : KeyProvider W) where
  unfoldable pub encrypt_data_and_upsert_into_db_v2 :
      CryptoOperationsManager W
      → StoreDataRequest V
      → Option WriteMode
      → Exec W (Fault ApiError) Vault
  unfolding write vault_new
  encrypt_data_and_upsert_into_db_v2 crypto_operator request mode = do
    data_to_be_encrypted ←
        pure (ok_or (raised ApiError.encoding_error) (codec.value_to_vec request.content))
    encrypted_data ← crypto_operator.encrypt_data data_to_be_encrypted
    (λ w. write db mode (vault_new request encrypted_data (runtime.now w)) w)

  unfoldable pub add_data :
      Option WriteMode → StoreDataRequest V → Exec W (Fault ApiError) VaultReference
  add_data mode request = do
    (λ w. (map_err raised (validate_ttl (runtime.now w) request.ttl), w))
    crypto_manager ← keys.find_or_create_entity request.entity_id
    map_exec store_data_response (encrypt_data_and_upsert_into_db_v2 crypto_manager request mode)

  unfoldable pub delete_data : VaultReference → Exec W (Fault ApiError) VaultReference
  delete_data request = do
    entity ← keys.find_by_entity_id request.entity_id
    delete_status ←
        map_error (λ e. raised (api_of_vault e))
          (db.delete_from_vault request.vault_id request.entity_id)
    pure (ok request)

  unfoldable pub retrieve_data : VaultReference → Exec W (Fault ApiError) V
  unfolding retrieved_value decrypt_vault
  retrieve_data request = do
    crypto_manager ← keys.find_by_entity_id request.entity_id
    vault_data ←
        map_error (λ e. raised (api_of_vault e))
          (db.find_by_vault_id_entity_id request.vault_id request.entity_id)
    decrypted_data ← decrypt_vault crypto_manager vault_data
    check_expiry runtime (db.delete_from_vault request.vault_id request.entity_id)
        decrypted_data.expires_at
    pure (map_err raised (retrieved_value codec decrypted_data))

-- ===== src/KeyManager/External.antt =====
-- crypto/keymanager/external_keymanager.rs and its types.rs and utils.rs: the key of an entity is in
-- the key manager, and its identifier there is in the entity's row. `interface` is the trait
-- `EntityInterface`; base64, hex and the decoding of a response's JSON are parameters.
pub mod Laws
pub mod Statuses
use hyperswitch_card_vault.Common.{
  ◌++◌, ◌/◌, ℕ, List, [], ◌∷◌, true, false, Option, none, some, Text, codes, length, Result, ok,
  err, ok_or, map_err, Fault, raised, Exec, map_error, map_exec, pure, ◌>>=◌,
}
use hyperswitch_card_vault.Error.Types.{ApiError, EntityDbError}
use hyperswitch_card_vault.Error.Remote.{
  ApiClientError, DataDecryptionError, DataEncryptionError, DataKeyCreationError,
  DataKeyTransferError, KeyManagerError,
}
use hyperswitch_card_vault.Error.KeyManager.{
  key_creation_of_api_client, key_manager_of_key_creation, key_transfer_of_api_client,
  key_manager_of_key_transfer, encryption_of_api_client, key_manager_of_encryption,
  decryption_of_api_client, key_manager_of_decryption,
}
use hyperswitch_card_vault.Error.ToApi.{api_of_entity, api_of_key_manager}
use hyperswitch_card_vault.Error.Classify.{entity_errors}
use hyperswitch_card_vault.Storage.Rows.{Bytes, Entity}
use hyperswitch_card_vault.Crypto.Aes.{take, drop}
use hyperswitch_card_vault.ApiClient.{HttpClient, Method, send_request}
use hyperswitch_card_vault.KeyManager.{
  CryptoOperationsManager, KeyProvider, CreatedEntity, ExternalKeyManagerConfig, get_url_required,
}

pub data Identifier : Type 0 where
  entity : Text → Identifier

unfoldable pub get_identifier : Identifier → Text
get_identifier (Identifier.entity identifier) = identifier

pub record DataKeyCreateRequest : Type 0 where
  pub identifier : Identifier

pub record DataKeyTransferRequest : Type 0 where
  pub identifier : Identifier
  pub key : Text

pub record DataEncryptionRequest : Type 0 where
  pub identifier : Identifier
  pub content : Bytes

pub record DataDecryptionRequest : Type 0 where
  pub identifier : Identifier
  pub content : Bytes

pub record DataKeyCreateResponse : Type 0 where
  pub identifier : Identifier
  pub key_version : Text

-- The bodies of the requests.
pub data RequestBody : Type 0 where
  key_create : DataKeyCreateRequest → RequestBody
  key_transfer : DataKeyTransferRequest → RequestBody
  data_encrypt : DataEncryptionRequest → RequestBody
  data_decrypt : DataDecryptionRequest → RequestBody

pub record EntityInterface (W : Type 0) : Type 0 where
  pub find_by_entity_id : Text → Exec W EntityDbError Entity
  pub insert_entity : Text → Text → Exec W EntityDbError Entity

-- What the code reads of the tenant's state: the configuration and the client. `B` is a response, which
-- reads as JSON or not.
pub record Service (W B : Type 0) : Type 0 where
  pub tenant_id : Text
  pub master_key : Bytes
  pub external_key_manager : ExternalKeyManagerConfig
  pub hex_encode : Bytes → Text
  pub base64_encode : Bytes → Text
  pub api_client : HttpClient W RequestBody B
  pub read_key : B → Option DataKeyCreateResponse
  pub read_encrypted : B → Option Bytes
  pub read_decrypted : B → Option Bytes

module _ {W B : Type 0} (state : Service W B) where
  -- get_key_manager_header: the key is sent in two halves.
  unfoldable pub get_key_manager_header : List (Text × Text)
  get_key_manager_header =
      let half : ℕ = length state.master_key / 2 in
      let hex_left = state.hex_encode (take half state.master_key) in
      let hex_right = state.hex_encode (drop half state.master_key) in
      (codes "content-type", codes "application/json")
      ∷ (
        codes "authorization",
        codes "Basic " ++ state.base64_encode (hex_left ++ (codes ":" ++ hex_right)),
      )
      ∷ (codes "x-tenant-id", state.tenant_id)
      ∷ []

  -- The call of a service and the decoding of its response: `of_api_client` and `of_error` are the
  -- conversions of the two `?`.
  unfoldable pub call_encryption_service :
      {E A : Type 0}
      → (ApiClientError → E)
      → (E → KeyManagerError)
      → Text
      → Text
      → RequestBody
      → (B → Option A)
      → Exec W KeyManagerError A
  unfolding get_key_manager_header
  call_encryption_service of_api_client of_error operation path request_body read = do
    url ← pure (get_url_required state.external_key_manager)
    response ←
        map_error (λ e. of_error (of_api_client e))
          (send_request state.api_client operation (url ++ path) get_key_manager_header Method.post
            request_body)
    pure (ok_or (of_error (of_api_client ApiClientError.response_decoding_failed)) (read response))

  unfoldable pub create_key_in_key_manager :
      DataKeyCreateRequest → Exec W KeyManagerError DataKeyCreateResponse
  create_key_in_key_manager request_body =
      call_encryption_service key_creation_of_api_client key_manager_of_key_creation
        (codes "key_create") (codes "/key/create") (RequestBody.key_create request_body)
        state.read_key

  unfoldable pub transfer_key_to_key_manager :
      DataKeyTransferRequest → Exec W KeyManagerError DataKeyCreateResponse
  transfer_key_to_key_manager request_body =
      call_encryption_service key_transfer_of_api_client key_manager_of_key_transfer
        (codes "key_transfer") (codes "/key/transfer") (RequestBody.key_transfer request_body)
        state.read_key

  unfoldable pub encrypt_data_using_key_manager :
      DataEncryptionRequest → Exec W KeyManagerError Bytes
  encrypt_data_using_key_manager request_body =
      call_encryption_service encryption_of_api_client key_manager_of_encryption
        (codes "data_encrypt") (codes "/data/encrypt") (RequestBody.data_encrypt request_body)
        state.read_encrypted

  unfoldable pub decrypt_data_using_key_manager :
      DataDecryptionRequest → Exec W KeyManagerError Bytes
  decrypt_data_using_key_manager request_body =
      call_encryption_service decryption_of_api_client key_manager_of_decryption
        (codes "data_decrypt") (codes "/data/decrypt") (RequestBody.data_decrypt request_body)
        state.read_decrypted

  -- ExternalCryptoManager
  unfoldable pub from_entity : Entity → CryptoOperationsManager W
  from_entity row = record {
    encrypt_data = λ content.
        map_error (λ e. raised (api_of_key_manager e))
          (encrypt_data_using_key_manager
            (record { identifier = Identifier.entity row.enc_key_id; content = content }));
    decrypt_data = λ content.
        map_error (λ e. raised (api_of_key_manager e))
          (decrypt_data_using_key_manager
            (record { identifier = Identifier.entity row.enc_key_id; content = content }));
  }

  module _ (db : EntityInterface W) (generate_nano_id : W → Text) where
    -- A new key for an entity without a row, and then the row.
    unfoldable pub create : Text → Exec W ApiError Entity
    create entity_id = do
      response ← (λ w.
          map_error api_of_key_manager
            (create_key_in_key_manager
              (record { identifier = Identifier.entity (generate_nano_id w) }))
            w)
      map_error api_of_entity (db.insert_entity entity_id (get_identifier response.identifier))

    unfoldable pub or_missing : Text → Result EntityDbError Entity → Exec W ApiError Entity
    or_missing entity_id (ok row) = pure (ok row)
    or_missing entity_id (err e) = elim (entity_errors.is_not_found e) [
      | true ↦ create entity_id
      | false ↦ pure (err (api_of_entity e))
    ]

    -- The part that `find_or_create_entity` and `create_entity` of the source both have.
    unfoldable pub find_or_create : Text → Exec W ApiError Entity
    find_or_create entity_id w =
        let (found, w') = db.find_by_entity_id entity_id w in or_missing entity_id found w'

    -- ExternalKeyManager
    unfoldable pub external_key_manager : KeyProvider W
    unfolding from_entity
    external_key_manager = record {
      find_by_entity_id = λ entity_id.
          map_error (λ e. raised (api_of_entity e))
            (map_exec from_entity (db.find_by_entity_id entity_id));
      find_or_create_entity =
          λ entity_id. map_error raised (map_exec from_entity (find_or_create entity_id));
      create_entity = λ entity_id. map_error raised (
          map_exec (λ row. record { entity_id = row.entity_id; created_at = row.created_at })
            (find_or_create entity_id));
    }

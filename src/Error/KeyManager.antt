-- ===== src/Error/KeyManager.antt =====
-- The conversions between the errors of the key manager, of error/transforms.rs.
use hyperswitch_card_vault.Error.Types.{EntityDbError}
use hyperswitch_card_vault.Error.Remote.{
  ApiClientError, DataDecryptionError, DataEncryptionError, DataKeyCreationError,
  DataKeyTransferError, KeyManagerError, KeyManagerHealthCheckError,
}

unfoldable pub key_manager_of_entity : EntityDbError → KeyManagerError
key_manager_of_entity EntityDbError.db_error = KeyManagerError.db_error
key_manager_of_entity EntityDbError.db_filter_error = KeyManagerError.db_error
key_manager_of_entity EntityDbError.db_insert_error = KeyManagerError.db_error
key_manager_of_entity EntityDbError.duplicate = KeyManagerError.db_error
key_manager_of_entity EntityDbError.unknown_error = KeyManagerError.db_error
key_manager_of_entity EntityDbError.not_found_error = KeyManagerError.db_error

unfoldable pub key_creation_of_api_client : ApiClientError → DataKeyCreationError
key_creation_of_api_client ApiClientError.client_construction_failed =
    DataKeyCreationError.unexpected
key_creation_of_api_client (ApiClientError.unexpected _ _) = DataKeyCreationError.unexpected
key_creation_of_api_client ApiClientError.header_map_construction_failed =
    DataKeyCreationError.request_construction_failed
key_creation_of_api_client ApiClientError.url_encoding_failed =
    DataKeyCreationError.request_construction_failed
key_creation_of_api_client ApiClientError.identity_parse_failed =
    DataKeyCreationError.certificate_parse_failed
key_creation_of_api_client (ApiClientError.certificate_parse_failed _) =
    DataKeyCreationError.certificate_parse_failed
key_creation_of_api_client ApiClientError.request_not_sent =
    DataKeyCreationError.request_send_failed
key_creation_of_api_client ApiClientError.response_decoding_failed =
    DataKeyCreationError.response_decoding_failed
key_creation_of_api_client (ApiClientError.bad_request _) = DataKeyCreationError.bad_request
key_creation_of_api_client (ApiClientError.internal_server_error _) =
    DataKeyCreationError.internal_server_error
key_creation_of_api_client (ApiClientError.unauthorized _) = DataKeyCreationError.unauthorized
key_creation_of_api_client (ApiClientError.missing_configuration_error _) =
    DataKeyCreationError.unexpected

unfoldable pub key_manager_of_key_creation : DataKeyCreationError → KeyManagerError
key_manager_of_key_creation DataKeyCreationError.request_send_failed =
    KeyManagerError.key_add_failed
key_manager_of_key_creation DataKeyCreationError.response_decoding_failed =
    KeyManagerError.key_add_failed
key_manager_of_key_creation DataKeyCreationError.internal_server_error =
    KeyManagerError.key_add_failed
key_manager_of_key_creation DataKeyCreationError.unexpected = KeyManagerError.key_add_failed
key_manager_of_key_creation DataKeyCreationError.bad_request = KeyManagerError.key_add_failed
key_manager_of_key_creation DataKeyCreationError.certificate_parse_failed =
    KeyManagerError.key_add_failed
key_manager_of_key_creation DataKeyCreationError.request_construction_failed =
    KeyManagerError.key_add_failed
key_manager_of_key_creation DataKeyCreationError.unauthorized = KeyManagerError.unauthorized

unfoldable pub key_transfer_of_api_client : ApiClientError → DataKeyTransferError
key_transfer_of_api_client ApiClientError.client_construction_failed =
    DataKeyTransferError.unexpected
key_transfer_of_api_client (ApiClientError.unexpected _ _) = DataKeyTransferError.unexpected
key_transfer_of_api_client ApiClientError.header_map_construction_failed =
    DataKeyTransferError.request_construction_failed
key_transfer_of_api_client ApiClientError.url_encoding_failed =
    DataKeyTransferError.request_construction_failed
key_transfer_of_api_client ApiClientError.identity_parse_failed =
    DataKeyTransferError.certificate_parse_failed
key_transfer_of_api_client (ApiClientError.certificate_parse_failed _) =
    DataKeyTransferError.certificate_parse_failed
key_transfer_of_api_client ApiClientError.request_not_sent =
    DataKeyTransferError.request_send_failed
key_transfer_of_api_client ApiClientError.response_decoding_failed =
    DataKeyTransferError.response_decoding_failed
key_transfer_of_api_client (ApiClientError.bad_request _) = DataKeyTransferError.bad_request
key_transfer_of_api_client (ApiClientError.internal_server_error _) =
    DataKeyTransferError.internal_server_error
key_transfer_of_api_client (ApiClientError.unauthorized _) = DataKeyTransferError.unauthorized
key_transfer_of_api_client (ApiClientError.missing_configuration_error _) =
    DataKeyTransferError.unexpected

unfoldable pub key_manager_of_key_transfer : DataKeyTransferError → KeyManagerError
key_manager_of_key_transfer DataKeyTransferError.request_send_failed =
    KeyManagerError.key_transfer_failed
key_manager_of_key_transfer DataKeyTransferError.response_decoding_failed =
    KeyManagerError.key_transfer_failed
key_manager_of_key_transfer DataKeyTransferError.internal_server_error =
    KeyManagerError.key_transfer_failed
key_manager_of_key_transfer DataKeyTransferError.unexpected = KeyManagerError.key_transfer_failed
key_manager_of_key_transfer DataKeyTransferError.bad_request = KeyManagerError.key_transfer_failed
key_manager_of_key_transfer DataKeyTransferError.certificate_parse_failed =
    KeyManagerError.key_transfer_failed
key_manager_of_key_transfer DataKeyTransferError.request_construction_failed =
    KeyManagerError.key_transfer_failed
key_manager_of_key_transfer DataKeyTransferError.unauthorized = KeyManagerError.unauthorized

unfoldable pub key_manager_of_encryption : DataEncryptionError → KeyManagerError
key_manager_of_encryption DataEncryptionError.request_send_failed =
    KeyManagerError.encryption_failed
key_manager_of_encryption DataEncryptionError.response_decoding_failed =
    KeyManagerError.encryption_failed
key_manager_of_encryption DataEncryptionError.internal_server_error =
    KeyManagerError.encryption_failed
key_manager_of_encryption DataEncryptionError.unexpected = KeyManagerError.encryption_failed
key_manager_of_encryption DataEncryptionError.bad_request = KeyManagerError.encryption_failed
key_manager_of_encryption DataEncryptionError.certificate_parse_failed =
    KeyManagerError.encryption_failed
key_manager_of_encryption DataEncryptionError.request_construction_failed =
    KeyManagerError.encryption_failed
key_manager_of_encryption DataEncryptionError.unauthorized = KeyManagerError.unauthorized

unfoldable pub encryption_of_api_client : ApiClientError → DataEncryptionError
encryption_of_api_client ApiClientError.client_construction_failed = DataEncryptionError.unexpected
encryption_of_api_client (ApiClientError.unexpected _ _) = DataEncryptionError.unexpected
encryption_of_api_client ApiClientError.header_map_construction_failed =
    DataEncryptionError.request_construction_failed
encryption_of_api_client ApiClientError.url_encoding_failed =
    DataEncryptionError.request_construction_failed
encryption_of_api_client ApiClientError.identity_parse_failed =
    DataEncryptionError.certificate_parse_failed
encryption_of_api_client (ApiClientError.certificate_parse_failed _) =
    DataEncryptionError.certificate_parse_failed
encryption_of_api_client ApiClientError.request_not_sent = DataEncryptionError.request_send_failed
encryption_of_api_client ApiClientError.response_decoding_failed =
    DataEncryptionError.response_decoding_failed
encryption_of_api_client (ApiClientError.bad_request _) = DataEncryptionError.bad_request
encryption_of_api_client (ApiClientError.internal_server_error _) =
    DataEncryptionError.internal_server_error
encryption_of_api_client (ApiClientError.unauthorized _) = DataEncryptionError.unauthorized
encryption_of_api_client (ApiClientError.missing_configuration_error _) =
    DataEncryptionError.unexpected

unfoldable pub key_manager_of_decryption : DataDecryptionError → KeyManagerError
key_manager_of_decryption DataDecryptionError.request_send_failed =
    KeyManagerError.decryption_failed
key_manager_of_decryption DataDecryptionError.response_decoding_failed =
    KeyManagerError.decryption_failed
key_manager_of_decryption DataDecryptionError.internal_server_error =
    KeyManagerError.decryption_failed
key_manager_of_decryption DataDecryptionError.unexpected = KeyManagerError.decryption_failed
key_manager_of_decryption DataDecryptionError.bad_request = KeyManagerError.decryption_failed
key_manager_of_decryption DataDecryptionError.certificate_parse_failed =
    KeyManagerError.decryption_failed
key_manager_of_decryption DataDecryptionError.request_construction_failed =
    KeyManagerError.decryption_failed
key_manager_of_decryption DataDecryptionError.unauthorized = KeyManagerError.unauthorized

unfoldable pub decryption_of_api_client : ApiClientError → DataDecryptionError
decryption_of_api_client ApiClientError.client_construction_failed = DataDecryptionError.unexpected
decryption_of_api_client (ApiClientError.unexpected _ _) = DataDecryptionError.unexpected
decryption_of_api_client ApiClientError.header_map_construction_failed =
    DataDecryptionError.request_construction_failed
decryption_of_api_client ApiClientError.url_encoding_failed =
    DataDecryptionError.request_construction_failed
decryption_of_api_client ApiClientError.identity_parse_failed =
    DataDecryptionError.certificate_parse_failed
decryption_of_api_client (ApiClientError.certificate_parse_failed _) =
    DataDecryptionError.certificate_parse_failed
decryption_of_api_client ApiClientError.request_not_sent = DataDecryptionError.request_send_failed
decryption_of_api_client ApiClientError.response_decoding_failed =
    DataDecryptionError.response_decoding_failed
decryption_of_api_client (ApiClientError.bad_request _) = DataDecryptionError.bad_request
decryption_of_api_client (ApiClientError.internal_server_error _) =
    DataDecryptionError.internal_server_error
decryption_of_api_client (ApiClientError.unauthorized _) = DataDecryptionError.unauthorized
decryption_of_api_client (ApiClientError.missing_configuration_error _) =
    DataDecryptionError.unexpected

unfoldable pub health_check_of_api_client : ApiClientError → KeyManagerHealthCheckError
health_check_of_api_client ApiClientError.client_construction_failed =
    KeyManagerHealthCheckError.failed_to_connect
health_check_of_api_client ApiClientError.header_map_construction_failed =
    KeyManagerHealthCheckError.failed_to_connect
health_check_of_api_client ApiClientError.identity_parse_failed =
    KeyManagerHealthCheckError.failed_to_connect
health_check_of_api_client (ApiClientError.certificate_parse_failed _) =
    KeyManagerHealthCheckError.failed_to_connect
health_check_of_api_client ApiClientError.url_encoding_failed =
    KeyManagerHealthCheckError.failed_to_connect
health_check_of_api_client ApiClientError.request_not_sent =
    KeyManagerHealthCheckError.failed_to_connect
health_check_of_api_client ApiClientError.response_decoding_failed =
    KeyManagerHealthCheckError.failed_to_connect
health_check_of_api_client (ApiClientError.bad_request _) =
    KeyManagerHealthCheckError.failed_to_connect
health_check_of_api_client (ApiClientError.unexpected _ _) =
    KeyManagerHealthCheckError.failed_to_connect
health_check_of_api_client (ApiClientError.internal_server_error _) =
    KeyManagerHealthCheckError.failed_to_connect
health_check_of_api_client (ApiClientError.unauthorized _) =
    KeyManagerHealthCheckError.failed_to_connect
health_check_of_api_client (ApiClientError.missing_configuration_error _) =
    KeyManagerHealthCheckError.failed_to_connect

-- ===== src/Error/Remote.antt =====
-- The error enums of error.rs that belong to the key manager and the HTTP client.
use hyperswitch_card_vault.Common.{ℕ, String, List}

pub data ApiClientError : Type 0 where
  client_construction_failed header_map_construction_failed identity_parse_failed : ApiClientError
  certificate_parse_failed : String → ApiClientError
  url_encoding_failed request_not_sent response_decoding_failed : ApiClientError
  bad_request : List ℕ → ApiClientError
  unauthorized : List ℕ → ApiClientError
  unexpected : ℕ → List ℕ → ApiClientError
  internal_server_error : List ℕ → ApiClientError
  missing_configuration_error : String → ApiClientError

pub data KeyManagerError : Type 0 where
  key_add_failed key_transfer_failed encryption_failed decryption_failed db_error
        response_decoding_failed unauthorized :
      KeyManagerError
  missing_configuration_error : String → KeyManagerError

pub data DataKeyCreationError : Type 0 where
  request_send_failed response_decoding_failed internal_server_error unexpected bad_request
        certificate_parse_failed request_construction_failed unauthorized :
      DataKeyCreationError

pub data DataKeyTransferError : Type 0 where
  request_send_failed response_decoding_failed internal_server_error unexpected bad_request
        certificate_parse_failed request_construction_failed unauthorized :
      DataKeyTransferError

pub data DataEncryptionError : Type 0 where
  request_send_failed response_decoding_failed internal_server_error unexpected bad_request
        certificate_parse_failed request_construction_failed unauthorized :
      DataEncryptionError

pub data DataDecryptionError : Type 0 where
  request_send_failed response_decoding_failed internal_server_error unexpected bad_request
        certificate_parse_failed request_construction_failed unauthorized :
      DataDecryptionError

pub data KeyManagerHealthCheckError : Type 0 where
  failed_to_connect : KeyManagerHealthCheckError
  missing_configuration_error : String → KeyManagerHealthCheckError

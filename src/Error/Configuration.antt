-- ===== src/Error/Configuration.antt =====
-- The error of the configuration and of the start, error.rs.
use hyperswitch_card_vault.Common.{String, Text}

pub data ConfigurationError : Type 0 where
  server_error address_error io_error database_error : ConfigurationError
  kms_decrypt_error : String → ConfigurationError
  vault_client_error : ConfigurationError
  invalid_configuration_value_error : Text → ConfigurationError

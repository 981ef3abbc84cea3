-- ===== src/KeyManager.antt =====
-- crypto/keymanager.rs: the two traits, over the state `W` of the program, and the choice of the key
-- manager by the configuration, of config.rs. A panic is told from an error.
pub mod Internal
pub mod External
mod Tests
use hyperswitch_card_vault.Common.{
  Bool, true, false, Option, none, some, Text, Result, ok_or, Fault, Exec,
}
use hyperswitch_card_vault.Error.Types.{ApiError}
use hyperswitch_card_vault.Error.Remote.{KeyManagerError}
use hyperswitch_card_vault.Storage.Rows.{Bytes, Time}

pub record CreatedEntity : Type 0 where
  pub entity_id : Text
  pub created_at : Time

pub record CryptoOperationsManager (W : Type 0) : Type 0 where
  pub encrypt_data : Bytes → Exec W (Fault ApiError) Bytes
  pub decrypt_data : Bytes → Exec W (Fault ApiError) Bytes

pub record KeyProvider (W : Type 0) : Type 0 where
  pub find_by_entity_id : Text → Exec W (Fault ApiError) (CryptoOperationsManager W)
  pub find_or_create_entity : Text → Exec W (Fault ApiError) (CryptoOperationsManager W)
  pub create_entity : Text → Exec W (Fault ApiError) CreatedEntity

-- The texts are the URL and the certificate of the key manager.
pub data ExternalKeyManagerConfig : Type 0 where
  disabled : ExternalKeyManagerConfig
  enabled : Text → ExternalKeyManagerConfig
  enabled_with_mtls : Text → Text → ExternalKeyManagerConfig

unfoldable pub is_mtls_enabled : ExternalKeyManagerConfig → Bool
is_mtls_enabled (ExternalKeyManagerConfig.enabled_with_mtls _ _) = true
is_mtls_enabled _ = false

unfoldable pub get_url : ExternalKeyManagerConfig → Option Text
get_url ExternalKeyManagerConfig.disabled = none
get_url (ExternalKeyManagerConfig.enabled url) = some url
get_url (ExternalKeyManagerConfig.enabled_with_mtls url _) = some url

unfoldable pub get_url_required : ExternalKeyManagerConfig → Result KeyManagerError Text
unfolding get_url
get_url_required self =
    ok_or
      (KeyManagerError.missing_configuration_error
        "external_key_manager.url is required when external key manager is enabled")
      (get_url self)

-- The arguments are the `InternalKeyManager` and the `ExternalKeyManager` of a program.
unfoldable pub get_dek_manager :
    {W : Type 0} → KeyProvider W → KeyProvider W → ExternalKeyManagerConfig → KeyProvider W
get_dek_manager internal external ExternalKeyManagerConfig.disabled = internal
get_dek_manager internal external (ExternalKeyManagerConfig.enabled _) = external
get_dek_manager internal external (ExternalKeyManagerConfig.enabled_with_mtls _ _) = external

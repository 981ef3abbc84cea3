-- ===== src/Config/RawSecrets.antt =====
-- GlobalConfig::fetch_raw_secrets: the decryption of the secrets of the configuration by the client of
-- the configured secrets manager, a parameter with UTF-8 and hexadecimal text. The program stops at an
-- error, so the part of the configuration that is decrypted by then is not kept.
pub mod Opened
use hyperswitch_card_vault.Common.{
  Bool, true, false, List, [], ◌∷◌, Option, none, some, String, Text, Result, ok, err, ok_or, Fault,
  raised, panicked, Exec, pure, map_error, map_exec, ◌>>=◌,
}
use hyperswitch_card_vault.Error.Configuration.{ConfigurationError}
use hyperswitch_card_vault.Storage.Rows.{Bytes}
use hyperswitch_card_vault.KeyManager.{ExternalKeyManagerConfig, is_mtls_enabled}
use hyperswitch_card_vault.Config.{
  SecretsManagementConfig, RuntimeConfigEndpoint, RuntimeConfig, ApiClientConfig, TenantSecrets,
  Database, Secrets, GlobalConfig,
}

-- The loop over `values_mut`.
unfoldable pub for_values :
    {W : Type 0}
    → (TenantSecrets → Exec W (Fault ConfigurationError) TenantSecrets)
    → List (Text × TenantSecrets)
    → Exec W (Fault ConfigurationError) (List (Text × TenantSecrets))
for_values body [] = pure (ok [])
for_values body ((tenant_id, tenant_secrets) ∷ tenants) = do
  changed ← body tenant_secrets
  map_exec (λ rest. (tenant_id, changed) ∷ rest) (for_values body tenants)

-- `W` is the state, `S` a failure of the secrets manager.
module _ {W S : Type 0} (get_secret : Text → Exec W S Text) where
  -- A secret, or the error with its name.
  unfoldable pub decrypted : String → Text → Exec W (Fault ConfigurationError) Text
  decrypted name secret =
      map_error (λ _. raised (ConfigurationError.kms_decrypt_error name)) (get_secret secret)

  unfoldable pub with_password : String → Database → Exec W (Fault ConfigurationError) Database
  unfolding decrypted
  with_password name database =
      map_exec (λ password. record database { password = password })
        (decrypted name database.password)

  unfoldable pub decrypt_replica :
      Option Database → Exec W (Fault ConfigurationError) (Option Database)
  unfolding with_password
  decrypt_replica none = pure (ok none)
  decrypt_replica (some read_replica) =
      map_exec some (with_password "read_replica_password" read_replica)

  unfoldable pub decrypt_public_key :
      TenantSecrets → Exec W (Fault ConfigurationError) TenantSecrets
  unfolding decrypted
  decrypt_public_key tenant_secrets =
      map_exec (λ public_key. record tenant_secrets { public_key = public_key })
        (decrypted "public_key" tenant_secrets.public_key)

  unfoldable pub decrypt_runtime_config :
      RuntimeConfig → Exec W (Fault ConfigurationError) RuntimeConfig
  unfolding decrypted
  decrypt_runtime_config RuntimeConfig.disabled = pure (ok RuntimeConfig.disabled)
  decrypt_runtime_config (RuntimeConfig.enabled endpoint interval) =
      map_exec (λ api_key. RuntimeConfig.enabled (record endpoint { api_key = api_key }) interval)
        (decrypted "runtime_config api_key" endpoint.api_key)

  unfoldable pub decrypt_identity :
      ExternalKeyManagerConfig → ApiClientConfig → Exec W (Fault ConfigurationError) ApiClientConfig
  unfolding decrypted is_mtls_enabled
  decrypt_identity key_manager api_client = elim (is_mtls_enabled key_manager) [
    | true ↦
        map_exec (λ identity. record api_client { identity = identity })
          (decrypted "api_client-identity" api_client.identity)
    | false ↦ pure (ok api_client)
  ]

  unfoldable pub decrypt_key_manager :
      ExternalKeyManagerConfig → Exec W (Fault ConfigurationError) ExternalKeyManagerConfig
  unfolding decrypted
  decrypt_key_manager (ExternalKeyManagerConfig.enabled_with_mtls url ca_cert) =
      map_exec (ExternalKeyManagerConfig.enabled_with_mtls url) (decrypted "ca_cert" ca_cert)
  decrypt_key_manager (ExternalKeyManagerConfig.enabled url) =
      pure (ok (ExternalKeyManagerConfig.enabled url))
  decrypt_key_manager ExternalKeyManagerConfig.disabled =
      pure (ok ExternalKeyManagerConfig.disabled)

  module _ (from_utf8 : Bytes → Option Text) (hex_decode : Text → Option Bytes) where
    unfoldable pub decrypt_master_key :
        TenantSecrets → Exec W (Fault ConfigurationError) TenantSecrets
    unfolding decrypted
    decrypt_master_key tenant_secrets = do
      text ← pure (ok_or panicked (from_utf8 tenant_secrets.master_key))
      secret ← decrypted "master_key" text
      master_key ← pure (ok_or panicked (hex_decode secret))
      pure (ok (record tenant_secrets { master_key = master_key }))

    unfoldable pub fetch_with :
        {R : Type 0} → GlobalConfig R → Exec W (Fault ConfigurationError) (GlobalConfig R)
    unfolding decrypted with_password decrypt_replica decrypt_master_key decrypt_public_key
        for_values decrypt_runtime_config decrypt_identity decrypt_key_manager
    fetch_with self = do
      database ← with_password "database_password" self.database
      read_replica ← decrypt_replica self.read_replica
      with_keys ← for_values decrypt_master_key self.tenant_secrets
      tenant_secrets ← for_values decrypt_public_key with_keys
      locker_private_key ← decrypted "locker_private_key" self.secrets.locker_private_key
      runtime_config ← decrypt_runtime_config self.runtime_config
      api_client ← decrypt_identity self.external_key_manager self.api_client
      external_key_manager ← decrypt_key_manager self.external_key_manager
      pure (
          ok (record self {
            database = database;
            read_replica = read_replica;
            tenant_secrets = tenant_secrets;
            secrets = record { locker_private_key = locker_private_key };
            runtime_config = runtime_config;
            api_client = api_client;
            external_key_manager = external_key_manager;
          }))

-- The client is made first, which panics if it cannot be made.
unfoldable pub fetch_raw_secrets :
    {W S : Type 0}
    → (Bytes → Option Text)
    → (Text → Option Bytes)
    → (SecretsManagementConfig → Exec W S (Text → Exec W S Text))
    → {R : Type 0} → GlobalConfig R
    → Exec W (Fault ConfigurationError) (GlobalConfig R)
unfolding fetch_with
fetch_raw_secrets from_utf8 hex_decode get_secret_management_client self = do
  client ← map_error (λ _. panicked) (get_secret_management_client self.secrets_management)
  fetch_with client from_utf8 hex_decode self

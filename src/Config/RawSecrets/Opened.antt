-- ===== src/Config/RawSecrets/Opened.antt =====
-- What the decryption of the secrets makes of a configuration.
use hyperswitch_card_vault.Common.{
  ◌≡◌, refl, List, [], ◌∷◌, Option, none, some, Text, ok, All, Exec,
}
use hyperswitch_card_vault.Storage.Rows.{Bytes}
use hyperswitch_card_vault.KeyManager.{ExternalKeyManagerConfig, is_mtls_enabled}
use hyperswitch_card_vault.Config.{
  SecretsManagementConfig, RuntimeConfig, ApiClientConfig, TenantSecrets, Database, GlobalConfig,
}
use hyperswitch_card_vault.Config.RawSecrets.{
  decrypted, with_password, decrypt_replica, decrypt_master_key, decrypt_public_key, for_values,
  decrypt_runtime_config, decrypt_identity, decrypt_key_manager, fetch_with, fetch_raw_secrets,
}

-- `reveal` is the text of a secret.
module _ (reveal : Text → Text) where
  abbrev opened_database : Database → Database
  opened_database database = record database { password = reveal database.password }

  abbrev opened_replica : Option Database → Option Database
  opened_replica none = none
  opened_replica (some database) = some (opened_database database)

  abbrev opened_runtime_config : RuntimeConfig → RuntimeConfig
  opened_runtime_config RuntimeConfig.disabled = RuntimeConfig.disabled
  opened_runtime_config (RuntimeConfig.enabled endpoint interval) =
      RuntimeConfig.enabled (record endpoint { api_key = reveal endpoint.api_key }) interval

  -- The identity is a secret only where the key manager asks for one.
  abbrev opened_client : ExternalKeyManagerConfig → ApiClientConfig → ApiClientConfig
  opened_client (ExternalKeyManagerConfig.enabled_with_mtls url ca_cert) client = record client {
    identity = reveal client.identity;
  }
  opened_client _ client = client

  abbrev opened_key_manager : ExternalKeyManagerConfig → ExternalKeyManagerConfig
  opened_key_manager (ExternalKeyManagerConfig.enabled_with_mtls url ca_cert) =
      ExternalKeyManagerConfig.enabled_with_mtls url (reveal ca_cert)
  opened_key_manager key_manager = key_manager

-- `key_of` is the master key of what stands for it.
module _ (reveal : Text → Text) (key_of : Bytes → Bytes) where
  abbrev opened_tenants : List (Text × TenantSecrets) → List (Text × TenantSecrets)
  opened_tenants [] = []
  opened_tenants ((tenant_id, secrets) ∷ tenants) =
      (
        tenant_id,
        record secrets {
          master_key = key_of secrets.master_key;
          public_key = reveal secrets.public_key;
        },
      )
      ∷ opened_tenants tenants

  abbrev pub opened : {R : Type 0} → GlobalConfig R → GlobalConfig R
  opened self = record self {
    database = opened_database reveal self.database;
    read_replica = opened_replica reveal self.read_replica;
    tenant_secrets = opened_tenants self.tenant_secrets;
    secrets = record { locker_private_key = reveal self.secrets.locker_private_key };
    runtime_config = opened_runtime_config reveal self.runtime_config;
    api_client = opened_client reveal self.external_key_manager self.api_client;
    external_key_manager = opened_key_manager reveal self.external_key_manager;
  }

module _ {W S : Type 0} (get_secret : Text → Exec W S Text) (from_utf8 : Bytes → Option Text)
    (hex_decode : Text → Option Bytes) (reveal : Text → Text) (key_of : Bytes → Bytes)
    (answers : (secret : Text) (w : W) → get_secret secret w ≡ (ok (reveal secret), w)) where
  -- A tenant's master key stands as the text of a secret, which is hexadecimal.
  abbrev pub IsMasterKey : Text × TenantSecrets → Type 0
  IsMasterKey tenant =
      (text : Text) × (from_utf8 tenant.1.master_key ≡ some text)
      × (hex_decode (reveal text) ≡ some (key_of tenant.1.master_key))

  abbrev with_keys : List (Text × TenantSecrets) → List (Text × TenantSecrets)
  with_keys [] = []
  with_keys ((tenant_id, secrets) ∷ tenants) =
      (tenant_id, record secrets { master_key = key_of secrets.master_key }) ∷ with_keys tenants

  master_keys :
      (tenants : List (Text × TenantSecrets)) (w : W)
      → All IsMasterKey tenants
      → for_values (decrypt_master_key get_secret from_utf8 hex_decode) tenants w
        ≡ (ok (with_keys tenants), w)
  unfolding for_values decrypt_master_key decrypted
  master_keys [] w h = refl
  master_keys ((tenant_id, secrets) ∷ tenants) w ((text, reads, hex), h) =
      simp (reads, answers, hex, master_keys tenants w h)

  public_keys :
      (tenants : List (Text × TenantSecrets)) (w : W)
      → for_values (decrypt_public_key get_secret) (with_keys tenants) w
        ≡ (ok (opened_tenants reveal key_of tenants), w)
  unfolding for_values decrypt_public_key decrypted
  public_keys [] w = refl
  public_keys ((tenant_id, secrets) ∷ tenants) w = simp (answers, public_keys tenants w)

  replica :
      (database : Option Database) (w : W)
      → decrypt_replica get_secret database w ≡ (ok (opened_replica reveal database), w)
  unfolding decrypt_replica with_password decrypted
  replica none w = refl
  replica (some database) w = simp answers

  runtime :
      (config : RuntimeConfig) (w : W)
      → decrypt_runtime_config get_secret config w ≡ (ok (opened_runtime_config reveal config), w)
  unfolding decrypt_runtime_config decrypted
  runtime RuntimeConfig.disabled w = refl
  runtime (RuntimeConfig.enabled endpoint interval) w = simp answers

  identity :
      (key_manager : ExternalKeyManagerConfig) (client : ApiClientConfig) (w : W)
      → decrypt_identity get_secret key_manager client w
        ≡ (ok (opened_client reveal key_manager client), w)
  unfolding decrypt_identity decrypted is_mtls_enabled
  identity ExternalKeyManagerConfig.disabled client w = refl
  identity (ExternalKeyManagerConfig.enabled url) client w = refl
  identity (ExternalKeyManagerConfig.enabled_with_mtls url ca_cert) client w = simp answers

  certificate :
      (key_manager : ExternalKeyManagerConfig) (w : W)
      → decrypt_key_manager get_secret key_manager w
        ≡ (ok (opened_key_manager reveal key_manager), w)
  unfolding decrypt_key_manager decrypted
  certificate ExternalKeyManagerConfig.disabled w = refl
  certificate (ExternalKeyManagerConfig.enabled url) w = refl
  certificate (ExternalKeyManagerConfig.enabled_with_mtls url ca_cert) w = simp answers

  -- With a secrets manager whose client is made and answers every secret, and master keys that stand as
  -- texts of secrets that are hexadecimal: the configuration that is fetched has every secret of a part
  -- that is enabled replaced by what the manager answers for it, the master keys by their bytes, and
  -- nothing else changed.
  pub fetch_raw_secrets_lem :
      (management : SecretsManagementConfig → Exec W S (Text → Exec W S Text)) {R : Type 0}
      (self : GlobalConfig R) (w w' : W)
      → management self.secrets_management w ≡ (ok get_secret, w')
      → All IsMasterKey self.tenant_secrets
      → fetch_raw_secrets from_utf8 hex_decode management self w
        ≡ (ok (opened reveal key_of self), w')
  unfolding fetch_raw_secrets fetch_with with_password decrypted
  fetch_raw_secrets_lem management self w w' made keys = simp (
    made,
    answers,
    replica self.read_replica w',
    master_keys self.tenant_secrets w' keys,
    public_keys self.tenant_secrets w',
    runtime self.runtime_config w',
    identity self.external_key_manager self.api_client w',
    certificate self.external_key_manager w',
  )

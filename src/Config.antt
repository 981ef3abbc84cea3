-- ===== src/Config.antt =====
-- config.rs, with the configurations of crypto/secrets_manager, observability.rs and api_client.rs: the
-- parts of the configuration that its validation and the decryption of its secrets read, with all features on. A map is a list of its
-- entries, in the order that an iteration has.
pub mod Validation
pub mod RawSecrets
mod Tests
use hyperswitch_card_vault.Common.{ℕ, List, Option, Text}
use hyperswitch_card_vault.Storage.Rows.{Bytes}
use hyperswitch_card_vault.Kv.Keys.{KvConfig}
use hyperswitch_card_vault.KeyManager.{ExternalKeyManagerConfig}

pub record AwsKmsConfig : Type 0 where
  pub key_id : Text
  pub region : Text

pub record HashiCorpVaultConfig : Type 0 where
  pub url : Text
  pub token : Text

pub data SecretsManagementConfig : Type 0 where
  aws_kms : AwsKmsConfig → SecretsManagementConfig
  hashi_corp_vault : HashiCorpVaultConfig → SecretsManagementConfig
  no_encryption : SecretsManagementConfig

pub record RuntimeConfigEndpoint : Type 0 where
  pub base_url : Text
  pub api_key : Text
  pub headers : List (Text × Text)
  pub path : Text

-- The endpoint and the interval of the refreshes in seconds.
pub data RuntimeConfig : Type 0 where
  disabled : RuntimeConfig
  enabled : RuntimeConfigEndpoint → ℕ → RuntimeConfig

-- The endpoint of OTLP, and the host and the port of Prometheus; the intervals are left out.
pub data MetricsConfig : Type 0 where
  disabled : MetricsConfig
  otlp : Text → MetricsConfig
  prometheus : Text → ℕ → MetricsConfig

pub record ApiClientConfig : Type 0 where
  pub client_idle_timeout : ℕ
  pub pool_max_idle_per_host : ℕ
  pub identity : Text

pub record TenantSecrets : Type 0 where
  pub master_key : Bytes
  pub public_key : Text
  pub schema : Text
  pub redis_key_prefix : Text

pub record Database : Type 0 where
  pub username : Text
  pub password : Text
  pub host : Text
  pub port : ℕ
  pub dbname : Text
  pub pool_size : Option ℕ

pub record Secrets : Type 0 where
  pub locker_private_key : Text

-- `R` is the settings of Redis, the library's.
pub record GlobalConfig (R : Type 0) : Type 0 where
  pub database : Database
  pub read_replica : Option Database
  pub secrets : Secrets
  pub secrets_management : SecretsManagementConfig
  pub metrics : MetricsConfig
  pub tenant_secrets : List (Text × TenantSecrets)
  pub api_client : ApiClientConfig
  pub external_key_manager : ExternalKeyManagerConfig
  pub redis : Option R
  pub runtime_config : RuntimeConfig
  pub kv : KvConfig

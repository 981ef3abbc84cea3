-- ===== src/Config/Tests.antt =====
-- A configuration with two tenants on one Redis: its validation and its secrets. Texts are trimmed of their leading spaces.
use hyperswitch_card_vault.Common.{
  ℕ, ◌+◌, Exec, ◌≡◌, ◌↔◌, refl, Bool, true, [], ◌∷◌, some, Text, codes, same_text, ok, err,
}
use hyperswitch_card_vault.Error.Configuration.{ConfigurationError}
use hyperswitch_card_vault.KeyManager.{ExternalKeyManagerConfig}
use hyperswitch_card_vault.Config.{
  SecretsManagementConfig, RuntimeConfig, MetricsConfig, TenantSecrets, Database, GlobalConfig,
}
use hyperswitch_card_vault.RuntimeConfig.{trim_start_matches}
use hyperswitch_card_vault.Config.RawSecrets.{fetch_raw_secrets}
use hyperswitch_card_vault.Config.RawSecrets.Opened.{opened, fetch_raw_secrets_lem}
use hyperswitch_card_vault.Config.Validation.{validate_config, check_prefixes, contains}
use hyperswitch_card_vault.Config.Validation.Usable.{IsUsable, validate_config_iff}

abbrev trim : Text → Text
trim text = trim_start_matches b' ' text

abbrev is_ip : Text → Bool
is_ip host = true

abbrev secrets : Text → TenantSecrets
secrets prefix = record {
  master_key = [];
  public_key = codes "key";
  schema = codes "public";
  redis_key_prefix = prefix;
}

abbrev database : Database
database = record {
  username = codes "u";
  password = codes "p";
  host = codes "h";
  port = 5432;
  dbname = codes "d";
  pool_size = some 5;
}

abbrev config : Text → Text → GlobalConfig (Unit {0})
config p q = record {
  database = database;
  read_replica = some database;
  secrets = record { locker_private_key = codes "private" };
  secrets_management = SecretsManagementConfig.no_encryption;
  metrics = MetricsConfig.prometheus (codes "127.0.0.1") 9090;
  tenant_secrets = (codes "s", secrets p) ∷ (codes "t", secrets q) ∷ [];
  api_client = record { client_idle_timeout = 90; pool_max_idle_per_host = 10; identity = [] };
  external_key_manager = ExternalKeyManagerConfig.enabled (codes "http://keys");
  redis = some tt;
  runtime_config = RuntimeConfig.disabled;
  kv = record {
    drainer_stream_suffix = codes "DRAINER_STREAM";
    drainer_num_partitions = 16;
    ttl_for_kv = 900;
  };
}

same_prefix :
    check_prefixes trim []
      ((codes "s", secrets (codes "a")) ∷ (codes "t", secrets (codes " a")) ∷ [])
    ≡ err (
        ConfigurationError.invalid_configuration_value_error
          (codes "duplicate redis_key_prefix `a`"))
unfolding check_prefixes contains trim_start_matches same_text
same_prefix = refl

validate_config_iff_example :
    (validate_config trim is_ip (config (codes " a") (codes "b")) ≡ ok tt)
    ↔ IsUsable trim is_ip (config (codes " a") (codes "b"))
validate_config_iff_example = validate_config_iff trim is_ip (config (codes " a") (codes "b"))

-- A secrets manager that counts its clients, and answers a secret with a mark before it; hexadecimal
-- text is the bytes.
abbrev reveal : Text → Text
reveal secret = b'!' ∷ secret

abbrev get_secret : Text → Exec ℕ (Unit {0}) Text
get_secret secret w = (ok (reveal secret), w)

abbrev management : SecretsManagementConfig → Exec ℕ (Unit {0}) (Text → Exec ℕ (Unit {0}) Text)
management config w = (ok get_secret, w + 1)

fetch_raw_secrets_lem_example :
    fetch_raw_secrets some some management (config (codes "a") (codes "b")) 0
    ≡ (ok (opened reveal reveal (config (codes "a") (codes "b"))), 1)
fetch_raw_secrets_lem_example =
    fetch_raw_secrets_lem get_secret some some reveal reveal (λ secret w. refl) management
      (config (codes "a") (codes "b")) 0 1 refl (([], refl, refl), (([], refl, refl), tt))

-- ===== src/Config/Validation.antt =====
-- The `validate` methods of the configuration. `trim` is `str::trim` and `is_ip` whether a text is an IP
-- address, both the standard library's.
pub mod Laws
pub mod Usable
use hyperswitch_card_vault.Common.{
  ℕ, Bool, true, false, ◌&&◌, ◌||◌, List, [], ◌∷◌, ◌++◌, Option, none, some, String, Text, codes,
  same_text, Result, ok, err, map_err, length, leb, ◌==◌, if◌then◌else◌, ◌and_ok◌,
}
use hyperswitch_card_vault.Error.Configuration.{ConfigurationError}
use hyperswitch_card_vault.Kv.Keys.{validate}
use hyperswitch_card_vault.KeyManager.{ExternalKeyManagerConfig, is_mtls_enabled}
use hyperswitch_card_vault.Config.{
  AwsKmsConfig, HashiCorpVaultConfig, SecretsManagementConfig, RuntimeConfigEndpoint, RuntimeConfig,
  MetricsConfig, ApiClientConfig, TenantSecrets, GlobalConfig,
}

abbrev pub Verdict : Type 0
Verdict = Result ConfigurationError (Unit {0})

abbrev pub invalid : String → Verdict
invalid message = err (ConfigurationError.invalid_configuration_value_error (codes message))

abbrev pub is_empty : Text → Bool
is_empty [] = true
is_empty (c ∷ cs) = false

-- HashSet::insert gives whether the text was not in the set: the test of being in it.
unfoldable pub contains : Text → List Text → Bool
contains prefix [] = false
contains prefix (p ∷ ps) = same_text p prefix || contains prefix ps

-- ApiClientConfig::validate_for_mtls
unfoldable pub validate_for_mtls : ApiClientConfig → ExternalKeyManagerConfig → Verdict
unfolding is_mtls_enabled
validate_for_mtls self external_key_manager_config =
    if is_mtls_enabled external_key_manager_config && is_empty self.identity
    then invalid "api_client.identity is required when mTLS is enabled"
    else ok tt

module _ (trim : Text → Text) where
  -- The test `trim().is_empty()` with its error.
  unfoldable pub required : String → Text → Verdict
  required message text = if is_empty (trim text) then invalid message else ok tt

  unfoldable pub validate_aws_kms : AwsKmsConfig → Verdict
  unfolding required
  validate_aws_kms self =
      required "AWS KMS key ID must not be empty" self.key_id
      and_ok required "AWS KMS region must not be empty" self.region

  unfoldable pub validate_hashi_corp_vault : HashiCorpVaultConfig → Verdict
  unfolding required
  validate_hashi_corp_vault self =
      required "HashiCorp vault url must not be empty" self.url
      and_ok required "HashiCorp vault token must not be empty" self.token

  unfoldable pub validate_secrets_management : SecretsManagementConfig → Verdict
  unfolding validate_aws_kms validate_hashi_corp_vault
  validate_secrets_management (SecretsManagementConfig.aws_kms config) = validate_aws_kms config
  validate_secrets_management (SecretsManagementConfig.hashi_corp_vault config) =
      validate_hashi_corp_vault config
  validate_secrets_management SecretsManagementConfig.no_encryption = ok tt

  unfoldable pub validate_runtime_config : RuntimeConfig → Verdict
  unfolding required
  validate_runtime_config RuntimeConfig.disabled = ok tt
  validate_runtime_config (RuntimeConfig.enabled endpoint interval) =
      required "runtime_config.endpoint.base_url is required when mode is \"enabled\""
        endpoint.base_url
      and_ok required "runtime_config.endpoint.api_key is required when mode is \"enabled\""
          endpoint.api_key

  unfoldable pub validate_external_key_manager : ExternalKeyManagerConfig → Verdict
  unfolding required
  validate_external_key_manager ExternalKeyManagerConfig.disabled = ok tt
  validate_external_key_manager (ExternalKeyManagerConfig.enabled url) =
      required "external_key_manager.url is required when external key manager is enabled" url
  validate_external_key_manager (ExternalKeyManagerConfig.enabled_with_mtls url ca_cert) =
      required "external_key_manager.url is required when external key manager is enabled" url
      and_ok required "external_key_manager.ca_cert is required when mTLS is enabled" ca_cert

  unfoldable pub validate_metrics : (Text → Bool) → MetricsConfig → Verdict
  unfolding required
  validate_metrics is_ip MetricsConfig.disabled = ok tt
  validate_metrics is_ip (MetricsConfig.otlp endpoint) =
      required "metrics.endpoint is required when mode is \"otlp\"" endpoint
  validate_metrics is_ip (MetricsConfig.prometheus host port) =
      if is_ip host
      then if port == 0
        then invalid "metrics.port must be a non-zero value when mode is \"prometheus\""
        else ok tt
      else invalid "metrics.host must be a valid IP address when mode is \"prometheus\""

  -- The loop of validate_kv_tenant_prefixes, with the prefixes `seen`.
  unfoldable pub check_prefixes : List Text → List (Text × TenantSecrets) → Verdict
  unfolding contains
  check_prefixes seen [] = ok tt
  check_prefixes seen ((tenant_id, secrets) ∷ tenants) =
      let prefix = trim secrets.redis_key_prefix in
      let rest = check_prefixes (prefix ∷ seen) tenants in
      if is_empty prefix
      then err (
          ConfigurationError.invalid_configuration_value_error (
            codes "tenant `"
            ++ (tenant_id ++ codes "`: redis_key_prefix required with kv + multi-tenant")))
      else if contains prefix seen
      then err (
          ConfigurationError.invalid_configuration_value_error
            (codes "duplicate redis_key_prefix `" ++ (prefix ++ codes "`")))
      else rest

  unfoldable pub validate_kv_tenant_prefixes :
      {R : Type 0} → Option R → List (Text × TenantSecrets) → Verdict
  unfolding check_prefixes
  validate_kv_tenant_prefixes none tenants = ok tt
  validate_kv_tenant_prefixes (some redis) tenants =
      if leb (length tenants) 1 then ok tt else check_prefixes [] tenants

  -- GlobalConfig::validate
  unfoldable pub validate_config : {R : Type 0} → (Text → Bool) → GlobalConfig R → Verdict
  unfolding validate_secrets_management validate_runtime_config validate_kv_tenant_prefixes
      validate_external_key_manager validate_for_mtls validate_metrics
  validate_config is_ip self =
      validate_secrets_management self.secrets_management
      and_ok (validate_runtime_config self.runtime_config
          and_ok (map_err
                (λ message. ConfigurationError.invalid_configuration_value_error (codes message))
                (validate self.kv)
              and_ok (validate_kv_tenant_prefixes self.redis self.tenant_secrets
                  and_ok (validate_external_key_manager self.external_key_manager
                      and_ok (validate_for_mtls self.api_client self.external_key_manager
                          and_ok validate_metrics is_ip self.metrics)))))

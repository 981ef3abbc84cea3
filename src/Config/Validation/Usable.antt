-- ===== src/Config/Validation/Usable.antt =====
-- The configurations that GlobalConfig::validate accepts.
use hyperswitch_card_vault.Common.{
  ◌<◌, ◌≡◌, ◌≢◌, ◌↔◌, refl, inl, inr, Bool, true, Bool-cases, List, [], Option, none, some, String,
  Text, codes, ok, err, map_err, length, leb, if◌then◌else◌, All, arith, ◌and_ok◌,
}
use hyperswitch_card_vault.Error.Configuration.{ConfigurationError}
use hyperswitch_card_vault.Kv.Keys.{KvConfig, validate}
use hyperswitch_card_vault.KeyManager.{ExternalKeyManagerConfig, is_mtls_enabled}
use hyperswitch_card_vault.Config.{
  SecretsManagementConfig, RuntimeConfig, MetricsConfig, ApiClientConfig, TenantSecrets,
  GlobalConfig,
}
use hyperswitch_card_vault.Config.Validation.{
  Verdict, is_empty, required, validate_aws_kms, validate_hashi_corp_vault,
  validate_secrets_management, validate_runtime_config, validate_external_key_manager,
  validate_for_mtls, validate_metrics, check_prefixes, validate_kv_tenant_prefixes, validate_config,
}
use hyperswitch_card_vault.Config.Validation.Laws.{
  Distinct, Apart-nil, prefixes, check→, check←, nonempty→, nonempty←,
}

-- A client has an identity where the key manager asks for one.
abbrev pub IsClient : ApiClientConfig → ExternalKeyManagerConfig → Type 0
IsClient client key_manager = is_mtls_enabled key_manager ≡ true → client.identity ≢ []

module _ (trim : Text → Text) where
  -- A text that is not white throughout.
  abbrev pub Present : Text → Type 0
  Present text = trim text ≢ []

  abbrev pub IsSecretsManagement : SecretsManagementConfig → Type 0
  IsSecretsManagement (SecretsManagementConfig.aws_kms c) = Present c.key_id × Present c.region
  IsSecretsManagement (SecretsManagementConfig.hashi_corp_vault c) = Present c.url × Present c.token
  IsSecretsManagement SecretsManagementConfig.no_encryption = Unit

  abbrev pub IsRuntimeConfig : RuntimeConfig → Type 0
  IsRuntimeConfig RuntimeConfig.disabled = Unit
  IsRuntimeConfig (RuntimeConfig.enabled endpoint interval) =
      Present endpoint.base_url × Present endpoint.api_key

  abbrev pub IsKeyManager : ExternalKeyManagerConfig → Type 0
  IsKeyManager ExternalKeyManagerConfig.disabled = Unit
  IsKeyManager (ExternalKeyManagerConfig.enabled url) = Present url
  IsKeyManager (ExternalKeyManagerConfig.enabled_with_mtls url ca_cert) =
      Present url × Present ca_cert

  abbrev pub IsMetrics : (Text → Bool) → MetricsConfig → Type 0
  IsMetrics is_ip MetricsConfig.disabled = Unit
  IsMetrics is_ip (MetricsConfig.otlp endpoint) = Present endpoint
  IsMetrics is_ip (MetricsConfig.prometheus host port) = (is_ip host ≡ true) × (0 < port)

  -- Several tenants on one Redis have prefixes, which are all different.
  abbrev pub IsIsolated : {R : Type 0} → Option R → List (Text × TenantSecrets) → Type 0
  IsIsolated none tenants = Unit
  IsIsolated (some redis) tenants =
      1 < length tenants
      → All (λ p. p ≢ []) (prefixes trim tenants) × Distinct (prefixes trim tenants)

  pub record IsUsable {R : Type 0} (is_ip : Text → Bool) (self : GlobalConfig R) : Type 0 where
    pub secrets_management : IsSecretsManagement self.secrets_management
    pub runtime_config : IsRuntimeConfig self.runtime_config
    pub partitions : 0 < self.kv.drainer_num_partitions
    pub tenants : IsIsolated self.redis self.tenant_secrets
    pub key_manager : IsKeyManager self.external_key_manager
    pub client : IsClient self.api_client self.external_key_manager
    pub metrics : IsMetrics is_ip self.metrics

-- Two validations in a row.
and_ok_iff :
    (r s : Verdict) {P Q : Type 0}
    → (r ≡ ok tt) ↔ P
    → (s ≡ ok tt) ↔ Q
    → (r and_ok s ≡ ok tt) ↔ (P × Q)
and_ok_iff (ok tt) s p q = (λ h. (p.0 refl, q.0 h), λ h. q.1 h.1)
and_ok_iff (err e) s p q = (λ h. absurd cc, λ h. let bad = p.1 h.0 in absurd cc)

module _ (trim : Text → Text) where
  required_iff :
      (message : String) (text : Text) → (required trim message text ≡ ok tt) ↔ (trim text ≢ [])
  unfolding required
  required_iff message text = elim (Bool-cases (is_empty (trim text))) [
    | inl empty ↦ (
      λ h. absurd ground (arith, empty, h),
      λ ne. absurd ground (arith, empty, nonempty← (trim text) ne),
    )
    | inr full ↦ (λ h. nonempty→ (trim text) full, λ ne. simp full)
  ]

  tenants_iff :
      {R : Type 0} (redis : Option R) (tenants : List (Text × TenantSecrets))
      → (validate_kv_tenant_prefixes trim redis tenants ≡ ok tt) ↔ IsIsolated trim redis tenants
  unfolding validate_kv_tenant_prefixes
  tenants_iff none tenants = (λ h. tt, λ h. refl)
  tenants_iff (some redis) tenants = (
    λ h many. several→ many h,
    λ isolated. elim (Bool-cases (leb (length tenants) 1)) [
      | inl few ↦ simp few
      | inr many ↦
          let (h, d) = isolated (ground (arith, many)) in
          simp (many, check← trim [] tenants h (Apart-nil (prefixes trim tenants)) d)
    ],
  )
    where
      several→ :
          1 < length tenants
          → (if leb (length tenants) 1 then ok tt else check_prefixes trim [] tenants) ≡ ok tt
          → All (λ p. p ≢ []) (prefixes trim tenants) × Distinct (prefixes trim tenants)
      several→ many h =
          let (full, apart, distinct) = check→ trim [] tenants (ground (arith, many, h)) in
          (full, distinct)

  secrets_validated :
      (c : SecretsManagementConfig)
      → (validate_secrets_management trim c ≡ ok tt) ↔ IsSecretsManagement trim c
  unfolding validate_secrets_management validate_aws_kms validate_hashi_corp_vault
  secrets_validated (SecretsManagementConfig.aws_kms c) =
      and_ok_iff _ _ (required_iff "AWS KMS key ID must not be empty" c.key_id)
        (required_iff "AWS KMS region must not be empty" c.region)
  secrets_validated (SecretsManagementConfig.hashi_corp_vault c) =
      and_ok_iff _ _ (required_iff "HashiCorp vault url must not be empty" c.url)
        (required_iff "HashiCorp vault token must not be empty" c.token)
  secrets_validated SecretsManagementConfig.no_encryption = (λ h. tt, λ h. refl)

  runtime_config_iff :
      (c : RuntimeConfig) → (validate_runtime_config trim c ≡ ok tt) ↔ IsRuntimeConfig trim c
  unfolding validate_runtime_config
  runtime_config_iff RuntimeConfig.disabled = (λ h. tt, λ h. refl)
  runtime_config_iff (RuntimeConfig.enabled endpoint interval) =
      and_ok_iff _ _
        (required_iff "runtime_config.endpoint.base_url is required when mode is \"enabled\""
          endpoint.base_url)
        (required_iff "runtime_config.endpoint.api_key is required when mode is \"enabled\""
          endpoint.api_key)

  keys_validated :
      (c : ExternalKeyManagerConfig)
      → (validate_external_key_manager trim c ≡ ok tt) ↔ IsKeyManager trim c
  unfolding validate_external_key_manager
  keys_validated ExternalKeyManagerConfig.disabled = (λ h. tt, λ h. refl)
  keys_validated (ExternalKeyManagerConfig.enabled url) =
      required_iff "external_key_manager.url is required when external key manager is enabled" url
  keys_validated (ExternalKeyManagerConfig.enabled_with_mtls url ca_cert) =
      and_ok_iff _ _
        (required_iff "external_key_manager.url is required when external key manager is enabled"
          url)
        (required_iff "external_key_manager.ca_cert is required when mTLS is enabled" ca_cert)

  export_validated :
      (is_ip : Text → Bool) (c : MetricsConfig)
      → (validate_metrics trim is_ip c ≡ ok tt) ↔ IsMetrics trim is_ip c
  unfolding validate_metrics
  export_validated is_ip MetricsConfig.disabled = (λ h. tt, λ h. refl)
  export_validated is_ip (MetricsConfig.otlp endpoint) =
      required_iff "metrics.endpoint is required when mode is \"otlp\"" endpoint
  export_validated is_ip (MetricsConfig.prometheus host port) =
      (λ h. ground arith, λ h. ground arith)

client_iff :
    (client : ApiClientConfig) (key_manager : ExternalKeyManagerConfig)
    → (validate_for_mtls client key_manager ≡ ok tt) ↔ IsClient client key_manager
unfolding validate_for_mtls
client_iff client key_manager = (
  λ h mtls. nonempty→ client.identity (ground (arith, h, mtls)),
  λ h. elim (Bool-cases (is_mtls_enabled key_manager)) [
    | inl mtls ↦ simp (mtls, nonempty← client.identity (h mtls))
    | inr plain ↦ simp plain
  ],
)

kv_iff :
    (kv : KvConfig)
    → (map_err
          (λ message. ConfigurationError.invalid_configuration_value_error (codes message))
          (validate kv)
        ≡ ok tt)
      ↔ (0 < kv.drainer_num_partitions)
unfolding validate
kv_iff kv = (λ h. ground arith, λ h. ground arith)

-- A configuration is accepted exactly when it is usable: what the enabled parts need is there and not
-- white throughout, the drainer has a partition, the port of Prometheus is not 0 and its host an IP
-- address, and where several tenants share a Redis their trimmed key prefixes are not empty and all
-- different, whatever the order of the tenants.
pub validate_config_iff :
    (trim : Text → Text) (is_ip : Text → Bool) {R : Type 0} (self : GlobalConfig R)
    → (validate_config trim is_ip self ≡ ok tt) ↔ IsUsable trim is_ip self
unfolding validate_config
validate_config_iff trim is_ip self =
    let parts = and_ok_iff _ _ (secrets_validated trim self.secrets_management) (
      and_ok_iff _ _ (runtime_config_iff trim self.runtime_config) (
        and_ok_iff _ _ (kv_iff self.kv) (
          and_ok_iff _ _ (tenants_iff trim self.redis self.tenant_secrets) (
            and_ok_iff _ _ (keys_validated trim self.external_key_manager) (
              and_ok_iff _ _ (client_iff self.api_client self.external_key_manager)
                (export_validated trim is_ip self.metrics)))))) in
    (
      λ h.
          let (secrets, (runtime, (partitions, (tenants, (key_manager, (client, metrics)))))) =
            parts.0 h in
          record {
            secrets_management = secrets;
            runtime_config = runtime;
            partitions = partitions;
            tenants = tenants;
            key_manager = key_manager;
            client = client;
            metrics = metrics;
          },
      λ u. parts.1 (
        u.secrets_management,
        (u.runtime_config, (u.partitions, (u.tenants, (u.key_manager, (u.client, u.metrics))))),
      ),
    )

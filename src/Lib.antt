-- ===== src/Lib.antt =====
-- The card vault (a locker for cards and other secrets): the data routes, the key managers behind them,
-- storage with its key-value layer on Redis and its caches, the domain's inserts, the AES and JWE
-- envelopes, the tenants' custodians, the configuration, and the errors of all of these.
--
-- The parts and their files, with the source files from the repository's root:
--   Common      Rust's `Result`, `async fn` over a world (`Exec`), text, lists and Boolean tests.
--   Error       src/error.rs, src/error/custom_error.rs, src/error/transforms.rs: the error types, each
--               conversion by `error_transform!` as `<target>_of_<source>`, the classifiers of the
--               storage errors, and the HTTP response of `ApiError`.
--   Validations src/validations.rs and `CardNumber::validate` of src/storage/types.rs.
--   Storage     src/storage.rs, src/storage/types.rs, src/storage/storage_v2/types.rs: rows, conversions,
--               the state `World` that the storage code changes, and the choice of a connection.
--               Merchants has the tables of merchants and entities in src/storage/db.rs, which have no
--               key-value layer.
--   Kv          src/storage/kv: Keys (partition_key.rs, and `KvConfig` of src/config.rs), Query
--               (serializable_query.rs), Wrapper (wrapper.rs), Resource (resource.rs, the traits as
--               records, with children Insert, Find and Mutate) and Impls (impls, with the operations
--               of src/storage/db.rs and src/storage/storage_v2/db.rs under the feature `kv`). Redis
--               says what the code relies on in Redis, and Memory is a Redis with these properties.
--   Domain      src/domain: inserts that read back the row that was in the way; Race has the calls of a
--               caller as steps. Hmac is src/crypto/hash_manager/managers/sha.rs.
--   Crypto      src/crypto/encryption_manager/managers: Aes (aes.rs), and Jwe (jw.rs), which also has
--               src/middleware.rs.
--   Custodian   src/tenant.rs, src/custom_extractors.rs, src/routes/key_custodian.rs.
--   KeyManager  src/crypto/keymanager.rs: Internal (internal_keymanager.rs, src/domain/merchant.rs) and
--               External (external_keymanager.rs, with its types and utils).
--   ApiClient   src/api_client.rs: the sending of a request and the errors of its response.
--   Routes      src/routes/data.rs and src/routes/data (Types, Transformers, Data), the routes of version
--               2 in src/routes/routes_v2 (DataV2), src/routes/entity.rs (Entities). Laws says what the
--               routes rely on in a key manager and in a store, Postgres is such a store of vaults and
--               of cards, with the key-value layer disabled, and RoundTrip has the stores and
--               retrievals.
--   Caching     src/storage/caching.rs and src/storage/caching; Coherence has the reads of hashes and
--               fingerprints, and its Values those of merchants and entities.
--   RuntimeConfig src/runtime_config.rs.
--   Config      src/config.rs: Validation, with the validations in src/crypto/secrets_manager, in
--               src/observability.rs and in src/api_client.rs, and RawSecrets, the decryption of the
--               secrets.
--
-- How they interact: the middleware opens a request; a handler gets its tenant's state by Custodian's
-- extractors; Routes validates the request (Validations), gets the manager of the merchant's data key
-- from KeyManager, which reads it from Storage.Merchants or asks an external service by ApiClient, and
-- seals or opens data by it (Crypto); it stores by Domain, whose interfaces Kv.Impls implements by
-- Kv.Resource, which calls Kv.Wrapper for Redis and the drainer's streams, and diesel for Postgres;
-- Caching is put before these interfaces; failures are values of Error, which become the HTTP response.
--
-- Conventions: a name keeps the source's words in snake case. State is passed on explicitly. What is
-- not the repository's code is a parameter: Redis, the connection pools and diesel, serde, `hex`, the
-- CRC-32, `ring`, generated identifiers and the clock. Reports that are attached to errors, metrics and
-- logs are left out. A panic is a value too (`Fault`, `Outcome`). The clock, random bytes and generated
-- identifiers are functions of the state, and a spawned task is handed to `spawn`, which may run it at
-- any time. Decimal text has the fuel `n + 1` for the number `n`, more than it has digits.
--
-- Not modelled: key migration, whose requests run concurrently; the reading of the configuration and
-- the clients of the secrets managers; start-up, health checks, observability and
-- logs, which are input and output; and the code of the tables without the feature `kv`.
pub mod Common
pub mod Error
pub mod Validations
pub mod Storage
pub mod Kv
pub mod Domain
pub mod Crypto
pub mod Custodian
pub mod KeyManager
pub mod Routes
pub mod Caching
pub mod RuntimeConfig
pub mod Config
pub mod ApiClient

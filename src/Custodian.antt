-- ===== src/Custodian.antt =====
-- tenant.rs, custom_extractors.rs and routes/key_custodian.rs (feature `key_custodian`): the tenants,
-- and the requests with which custodians unlock one. A map is a function; a request is handled in
-- whole before the next, as the code does but for the check of `TenantId`, which is before the lock.
-- What the code makes of a tenant's decrypted master key, `TenantAppState::new`, and `hex::decode` are
-- parameters.
pub mod Laws
mod Tests
use hyperswitch_card_vault.Common.{
  ℕ, ◌++◌, List, [], ◌∷◌, ◌==◌, Bool, true, false, Option, none, some, Text, same_text, Result, ok,
  err, map_err, length, if◌then◌else◌, String,
}
use hyperswitch_card_vault.Error.Types.{ApiError}
use hyperswitch_card_vault.Storage.Rows.{Bytes}

abbrev pub key_length : ℕ
key_length = 16

pub record CustodianKeyState : Type 0 where
  pub key1 : Option Text
  pub key2 : Option Text

pub record GlobalAppState (TenantAppState : Type 0) : Type 0 where
  pub tenants_app_state : Text → Option TenantAppState
  pub tenants_key_state : Text → Option CustodianKeyState
  pub known_tenants : Text → Bool

-- The map with a new value under a key.
abbrev pub insert : {A : Type 0} → Text → A → (Text → Option A) → Text → Option A
insert k a m k' = if same_text k k' then some a else m k'

-- key_validation, the error by its message.
unfoldable pub key_validation : (Text → Option Bytes) → Text → Result String Text
key_validation hex_decode text = elim (hex_decode text) [
  | none ↦ err "error while parsing hex"
  | some hex_data ↦
      if length hex_data == key_length then ok text else err "Error while validating key"
]

module _ {TenantAppState : Type 0} where
  -- GlobalAppState::new with this feature: no tenant is unlocked and no key is there.
  unfoldable pub new : (Text → Bool) → GlobalAppState TenantAppState
  new known_tenants = record {
    tenants_app_state = λ t. none;
    tenants_key_state =
        λ t. if known_tenants t then some (record { key1 = none; key2 = none }) else none;
    known_tenants = known_tenants;
  }

  unfoldable pub get_app_state_of_tenant :
      GlobalAppState TenantAppState → Text → Result ApiError TenantAppState
  get_app_state_of_tenant self tenant_id = elim (self.tenants_app_state tenant_id) [
    | none ↦ err ApiError.custodian_locked
    | some state ↦ ok state
  ]

  unfoldable pub is_known_tenant : GlobalAppState TenantAppState → Text → Result ApiError (Unit {0})
  is_known_tenant self tenant_id =
      if self.known_tenants tenant_id
      then ok tt
      else err (ApiError.tenant_error "Invalid x-tenant-id")

  unfoldable pub is_custodian_unlocked :
      GlobalAppState TenantAppState → Text → Result ApiError (Unit {0})
  is_custodian_unlocked self tenant_id = elim (self.tenants_app_state tenant_id) [
    | none ↦ ok tt
    | some _ ↦ err ApiError.custodian_unlocked
  ]

  unfoldable pub set_app_state :
      Text → TenantAppState → GlobalAppState TenantAppState → GlobalAppState TenantAppState
  set_app_state tenant_id state self = record self {
    tenants_app_state = insert tenant_id state self.tenants_app_state;
  }

  -- The extractor of the data routes, from the header of the request.
  unfoldable pub tenant_state_resolver :
      Option Text → GlobalAppState TenantAppState → Result ApiError TenantAppState
  tenant_state_resolver none state = err (ApiError.tenant_error "x-tenant-id not found in headers")
  tenant_state_resolver (some tenant_id) state = elim (is_known_tenant state tenant_id) [
    | err e ↦ err e
    | ok _ ↦ get_app_state_of_tenant state tenant_id
  ]

  -- The extractor of the custodian's routes.
  unfoldable pub tenant_id_extractor :
      Option Text → GlobalAppState TenantAppState → Result ApiError Text
  tenant_id_extractor none state = err (ApiError.tenant_error "x-tenant-id not found in header")
  tenant_id_extractor (some tenant_id) state = elim (is_known_tenant state tenant_id) [
    | err e ↦ err e
    | ok _ ↦ elim (is_custodian_unlocked state tenant_id) [ err e ↦ err e | ok _ ↦ ok tenant_id ]
  ]

  -- `entry(..).and_modify(..)`: a tenant without an entry stays without.
  abbrev pub and_modify :
      Text
      → (CustodianKeyState → CustodianKeyState)
      → GlobalAppState TenantAppState
      → GlobalAppState TenantAppState
  and_modify tenant_id f self = elim (self.tenants_key_state tenant_id) [
    | none ↦ self
    | some keys ↦ record self {
      tenants_key_state = insert tenant_id (f keys) self.tenants_key_state;
    }
  ]

  unfoldable pub key1 : Text → Text → GlobalAppState TenantAppState → GlobalAppState TenantAppState
  key1 tenant_id key = and_modify tenant_id (λ keys. record keys { key1 = some key })

  unfoldable pub key2 : Text → Text → GlobalAppState TenantAppState → GlobalAppState TenantAppState
  key2 tenant_id key = and_modify tenant_id (λ keys. record keys { key2 = some key })

  -- `aes_decrypt master key` opens the tenant's master key with a key; `tenant_app_state_new` is
  -- `TenantAppState::new` with the opened key.
  module _ (hex_decode : Text → Option Bytes) (aes_decrypt : Text → Bytes → Option Bytes)
      (tenant_app_state_new : Text → Bytes → Option TenantAppState) where
    unfoldable pub aes_decrypt_custodian_key : Text → Text → Text → Result ApiError Bytes
    aes_decrypt_custodian_key tenant_id inner_key1 inner_key2 =
        elim (hex_decode (inner_key1 ++ inner_key2)) [
          | none ↦ err (ApiError.decrypting_keys_failed "Hex dcoding failed")
          | some key ↦ elim (aes_decrypt tenant_id key) [
            | none ↦ err (ApiError.decrypting_keys_failed "AES decryption failed")
            | some master_key ↦ ok master_key
          ]
        ]

    -- With both keys: an error returns at once, by `?`.
    unfoldable pub unlock :
        Text
        → Text
        → Text
        → GlobalAppState TenantAppState
        → Result ApiError (Unit {0}) × GlobalAppState TenantAppState
    unlock tenant_id inner_key1 inner_key2 state =
        elim (aes_decrypt_custodian_key tenant_id inner_key1 inner_key2) [
          | err e ↦ (err e, state)
          | ok master_key ↦ elim (tenant_app_state_new tenant_id master_key) [
            | none ↦
                (err (ApiError.tenant_error "Failed while creating AppState for tenant"), state)
            | some tenant_app_state ↦ (ok tt, set_app_state tenant_id tenant_app_state state)
          ]
        ]

    -- The `match` on the two keys; but for the case of both, the keys are reset.
    unfoldable pub decrypt_with :
        Text
        → Option Text
        → Option Text
        → GlobalAppState TenantAppState
        → Result ApiError (Unit {0}) × GlobalAppState TenantAppState
    decrypt_with tenant_id (some inner_key1) (some inner_key2) state =
        unlock tenant_id inner_key1 inner_key2 state
    decrypt_with tenant_id (some inner_key1) none state = (
      err (ApiError.decrypting_keys_failed "Both the custodain keys are not present to decrypt"),
      and_modify tenant_id (λ keys. record { key1 = none; key2 = none }) state,
    )
    decrypt_with tenant_id none inner_key2 state = (
      err (ApiError.decrypting_keys_failed "Both the custodain keys are not present to decrypt"),
      and_modify tenant_id (λ keys. record { key1 = none; key2 = none }) state,
    )

    unfoldable pub decrypt :
        Text
        → GlobalAppState TenantAppState
        → Result ApiError (Unit {0}) × GlobalAppState TenantAppState
    decrypt tenant_id state = elim (state.tenants_key_state tenant_id) [
      | none ↦ (err (ApiError.tenant_error "Tenant not found"), state)
      | some keys ↦ decrypt_with tenant_id keys.key1 keys.key2 state
    ]

-- The requests to the custodian's routes, each with its header, a key already validated.
pub data Request : Type 0 where
  post_key1 post_key2 : Option Text → Text → Request
  post_decrypt : Option Text → Request

unfoldable pub header : Request → Option Text
header (Request.post_key1 h key) = h
header (Request.post_key2 h key) = h
header (Request.post_decrypt h) = h

module _ {TenantAppState : Type 0} (hex_decode : Text → Option Bytes)
    (aes_decrypt : Text → Bytes → Option Bytes)
    (tenant_app_state_new : Text → Bytes → Option TenantAppState) where
  -- The handler of a request whose tenant was extracted.
  unfoldable pub handle_for :
      Request
      → Text
      → GlobalAppState TenantAppState
      → Result ApiError (Unit {0}) × GlobalAppState TenantAppState
  handle_for (Request.post_key1 h key) tenant_id state = (ok tt, key1 tenant_id key state)
  handle_for (Request.post_key2 h key) tenant_id state = (ok tt, key2 tenant_id key state)
  handle_for (Request.post_decrypt h) tenant_id state =
      decrypt hex_decode aes_decrypt tenant_app_state_new tenant_id state

  unfoldable pub handle :
      Request
      → GlobalAppState TenantAppState
      → Result ApiError (Unit {0}) × GlobalAppState TenantAppState
  handle request state = elim (tenant_id_extractor (header request) state) [
    | err e ↦ (err e, state)
    | ok tenant_id ↦ handle_for request tenant_id state
  ]

  unfoldable pub run : List Request → GlobalAppState TenantAppState → GlobalAppState TenantAppState
  run [] state = state
  run (request ∷ requests) state = run requests (handle request state).1

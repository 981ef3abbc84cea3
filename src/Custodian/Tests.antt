-- ===== src/Custodian/Tests.antt =====
-- The custodian's routes with two tenants.
use hyperswitch_card_vault.Common.{
  ◌≡◌, ◌↔◌, refl, true, [], ◌∷◌, Option, none, some, Text, codes, same_text, ok, err, if◌then◌else◌,
  arith,
}
use hyperswitch_card_vault.Error.Types.{ApiError}
use hyperswitch_card_vault.Storage.Rows.{Bytes}
use hyperswitch_card_vault.Custodian.{
  GlobalAppState, new, tenant_state_resolver, aes_decrypt_custodian_key, Request, header, handle,
  run, tenant_id_extractor, is_known_tenant, is_custodian_unlocked, handle_for, key1, key2, decrypt,
  decrypt_with, unlock, set_app_state,
}
use hyperswitch_card_vault.Custodian.Laws.{
  SameTenant, resolver_iff, handle-other, run-unlocked, decrypt_failure_keeps_keys,
}

abbrev t : Text
t = 1 ∷ []

abbrev u : Text
u = 2 ∷ []

abbrev k1 : Text
k1 = codes "1"

abbrev k2 : Text
k2 = codes "2"

abbrev hex : Text → Option Bytes
hex text = some text

-- The key `12` opens the master key, no other does.
abbrev opens : Text → Bytes → Option Bytes
opens tenant_id key = if same_text key (codes "12") then some tenant_id else none

-- The application state of this test is the tenant's name.
abbrev make : Text → Bytes → Option Text
make tenant_id master_key = some tenant_id

abbrev start : GlobalAppState Text
start = record {
  tenants_app_state = λ x. none;
  tenants_key_state = λ x. some (record { key1 = none; key2 = none });
  known_tenants = λ x. true;
}

abbrev with_keys : Text → Text → GlobalAppState Text
with_keys a b = record start {
  tenants_key_state = λ x. some (record { key1 = some a; key2 = some b });
}

abbrev unlocked : GlobalAppState Text
unlocked = record start { tenants_app_state = λ x. some t }

resolver_iff_example :
    (tenant_state_resolver (some t) unlocked ≡ ok t) ↔ ((true ≡ true) × (some t ≡ some t))
resolver_iff_example = resolver_iff t unlocked t

handle-other_example :
    SameTenant t start (handle hex opens make (Request.post_key1 (some u) k1) start).1
unfolding header
handle-other_example =
    handle-other hex opens make (Request.post_key1 (some u) k1) t start (ground arith)

run-unlocked_example : SameTenant t unlocked (
    run hex opens make
      (Request.post_key1 (some t) k2 ∷ Request.post_decrypt (some t) ∷ [])
      unlocked)
run-unlocked_example =
    run-unlocked hex opens make (Request.post_key1 (some t) k2 ∷ Request.post_decrypt (some t) ∷ [])
      t t unlocked refl

decrypt_failure_keeps_keys_example :
    handle hex opens make (Request.post_decrypt (some t)) (with_keys k2 k1)
    ≡ (err (ApiError.decrypting_keys_failed "AES decryption failed"), with_keys k2 k1)
unfolding aes_decrypt_custodian_key same_text
decrypt_failure_keeps_keys_example =
    decrypt_failure_keeps_keys hex opens make t (with_keys k2 k1) refl refl k2 k1
      (ApiError.decrypting_keys_failed "AES decryption failed") refl refl

-- Keys posted one after the other, then the request to decrypt.
unlocks :
    (run hex opens make
        (Request.post_key1 (some t) k1
          ∷ Request.post_key2 (some t) k2
          ∷ Request.post_decrypt (some t)
          ∷ [])
        (new (λ x. true))).tenants_app_state
      t
    ≡ some t
unfolding run handle new same_text tenant_id_extractor header is_known_tenant is_custodian_unlocked
    handle_for key1 key2 decrypt decrypt_with unlock aes_decrypt_custodian_key set_app_state
unlocks = refl

-- ===== src/Routes/Tests/Vaults.antt =====
-- Runs of the data routes of version 2 on a store of one vault row.
use hyperswitch_card_vault.Common.{
  ◌≡◌, refl, Option, none, some, Text, codes, false, Result, ok, err, arith,
}
use hyperswitch_card_vault.Error.Types.{VaultDbError}
use hyperswitch_card_vault.Storage.Scheme.{StorageScheme}
use hyperswitch_card_vault.Storage.Rows.{Time, Encryptable}
use hyperswitch_card_vault.Storage.Vaults.{Vault, VaultNew, VaultUpdate}
use hyperswitch_card_vault.Domain.{VaultInterface}
use hyperswitch_card_vault.KeyManager.{KeyProvider, CryptoOperationsManager}
use hyperswitch_card_vault.Routes.Types.{validate_ttl}
use hyperswitch_card_vault.Routes.Data.{Runtime}
use hyperswitch_card_vault.Routes.DataV2.{
  StoreDataRequest, ValueCodec, VaultReference, add_data, retrieve_data,
}
use hyperswitch_card_vault.Routes.Laws.{IsManager, HasKey, IsVaultStore, vault_row}
use hyperswitch_card_vault.Routes.RoundTrip.V2.{add_then_retrieve_data}

abbrev W : Type 0
W = Option Vault

abbrev manager : CryptoOperationsManager W
manager = record {
  encrypt_data = λ content w. (ok content, w);
  decrypt_data = λ content w. (ok content, w);
}

abbrev keys : KeyProvider W
keys = record {
  find_by_entity_id = λ entity_id w. (ok manager, w);
  find_or_create_entity = λ entity_id w. (ok manager, w);
  create_entity = λ entity_id w. (ok (record { entity_id = entity_id; created_at = 5 }), w);
}

abbrev runtime : Runtime W
runtime = record {
  now = λ w. 10;
  generate_uuid = λ w. codes "uuid";
  generate_nano_id = λ w. codes "nano";
  spawn = λ task w. (task w).1;
  is_whitespace = λ c. false;
}

abbrev codec : ValueCodec Text
codec = record { value_to_vec = some; value_from_slice = some }

abbrev updated : StorageScheme → Vault → VaultUpdate → Vault
updated scheme row update = record row {
  content = Encryptable.encrypted update.encrypted_data;
  expires_at = elim update.expires_at [ none ↦ row.expires_at | some t ↦ some t ];
  updated_by = some scheme;
}

abbrev insert : W → VaultNew → Result VaultDbError Vault × W
insert none new =
    (ok (vault_row StorageScheme.redis_kv new), some (vault_row StorageScheme.redis_kv new))
insert (some row) new = (err VaultDbError.duplicate, some row)

abbrev find : W → Result VaultDbError Vault × W
find none = (err VaultDbError.not_found_error, none)
find (some row) = (ok row, some row)

abbrev set : W → VaultUpdate → Result VaultDbError Vault × W
set none update = (err VaultDbError.not_found_error, none)
set (some row) update = (
  ok (updated StorageScheme.redis_kv row update),
  some (updated StorageScheme.redis_kv row update),
)

abbrev vaults : VaultInterface W
vaults = record {
  insert_vault = λ new w. insert w new;
  find_by_vault_id_entity_id = λ v e w. find w;
  update_vault_data = λ v e update w. set w update;
  delete_from_vault = λ v e w. (ok 1, none);
}

abbrev rows : W → Text → Text → Option Vault
rows w v e = w

find_row_lem : (w : W) (row : Vault) → w ≡ some row → find w ≡ (ok row, w)
find_row_lem none row h = absurd cc
find_row_lem (some r) row h = ground arith

insert_new_lem :
    (w : W) (new : VaultNew)
    → w ≡ none
    → (scheme : StorageScheme) × (w' : W) × (insert w new ≡ (ok (vault_row scheme new), w'))
      × (w' ≡ some (vault_row scheme new))
insert_new_lem none new h =
    (StorageScheme.redis_kv, some (vault_row StorageScheme.redis_kv new), refl, refl)
insert_new_lem (some r) new h = absurd cc

insert_old_lem :
    (w : W) (new : VaultNew) (row : Vault)
    → w ≡ some row
    → insert w new ≡ (err VaultDbError.duplicate, w)
insert_old_lem none new row h = absurd cc
insert_old_lem (some r) new row h = refl

update_row_lem :
    (w : W) (update : VaultUpdate) (row : Vault)
    → w ≡ some row
    → (scheme : StorageScheme) × (w' : W) × (set w update ≡ (ok (updated scheme row update), w'))
      × (w' ≡ some (updated scheme row update))
update_row_lem w update row h =
    rw h (StorageScheme.redis_kv, some (updated StorageScheme.redis_kv row update), refl, refl)

store : IsVaultStore vaults rows
store = record {
  find_row = λ w v e row h. find_row_lem w row h;
  insert_new = λ w new h. insert_new_lem w new h;
  insert_old = λ w new row h. insert_old_lem w new row h;
  update_row = λ w v e update row h. update_row_lem w update row h;
}

has_key : HasKey keys (codes "e") manager
has_key = record { finds = λ w. refl; finds_or_creates = λ w. refl }

manages : IsManager manager (λ (u : W). u)
manages = record { seals = λ content w. (content, w, refl, refl, λ v. refl) }

abbrev request : Option Time → StoreDataRequest Text
request ttl = record {
  entity_id = codes "e";
  vault_id = codes "v";
  content = codes "secret";
  ttl = ttl;
}

abbrev reference : VaultReference
reference = record { entity_id = codes "e"; vault_id = codes "v" }

add_then_retrieve_data_example :
    (w' : W) × (add_data runtime codec vaults keys none (request (some 20)) none
      ≡ (ok reference, w'))
    × (retrieve_data runtime codec vaults keys reference w' ≡ (ok (codes "secret"), w'))
unfolding validate_ttl
add_then_retrieve_data_example =
    add_then_retrieve_data runtime codec vaults keys rows store manager (request (some 20)) none
      (codes "secret") has_key manages refl refl refl none refl

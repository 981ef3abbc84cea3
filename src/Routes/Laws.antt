-- ===== src/Routes/Laws.antt =====
-- What the theorems on the data routes take as given of the stores and the key manager.
pub mod Ttl
pub mod Sealing
use hyperswitch_card_vault.Common.{
  ℕ, ◌≡◌, refl, Bool, Bool-cases, inl, inr, continue, pure, true, Option, none, some, Text, Result,
  ok, err, map_err, Fault, raised, Exec, ltb, if◌then◌else◌,
}
use hyperswitch_card_vault.Error.Types.{ApiError, VaultDbError}
use hyperswitch_card_vault.Storage.Scheme.{StorageScheme}
use hyperswitch_card_vault.Storage.Rows.{Bytes, Time, Encryptable, Locker, LockerNew, HashTable}
use hyperswitch_card_vault.Storage.Vaults.{Vault, VaultNew, VaultUpdate}
use hyperswitch_card_vault.Domain.{HashInterface, LockerInterface, VaultInterface}
use hyperswitch_card_vault.KeyManager.{CryptoOperationsManager, KeyProvider}
use hyperswitch_card_vault.Routes.Data.{Runtime, check_expiry}

-- The answer of a read of live data, and of expired data.
abbrev pub expiring :
    {W A : Type 0}
    → Runtime W
    → Exec W VaultDbError ℕ
    → Option Time
    → Result (Fault ApiError) A
    → W
    → Result (Fault ApiError) A × W
expiring runtime delete none answer w = (answer, w)
expiring runtime delete (some ttl) answer w =
    if ltb ttl (runtime.now w)
    then (err (raised ApiError.not_found_error), runtime.spawn delete w)
    else (answer, w)

pub check_expiry-expiring :
    {W A : Type 0} (runtime : Runtime W) (delete : Exec W VaultDbError ℕ) (ttl : Option Time)
    (answer : Result (Fault ApiError) A) (w : W)
    → continue (λ _. pure answer) (check_expiry runtime delete ttl w)
      ≡ expiring runtime delete ttl answer w
unfolding check_expiry
check_expiry-expiring runtime delete none answer w = refl
check_expiry-expiring runtime delete (some ttl) answer w =
    elim (Bool-cases (ltb ttl (runtime.now w))) [ inl late ↦ rw late | inr early ↦ rw early ]

-- A manager of one key: what it sealed it opens, in every state, and it leaves what `view` shows.
pub record IsManager {W S : Type 0} (manager : CryptoOperationsManager W) (view : W → S)
    : Type 0 where
  pub seals :
      (content : Bytes) (w : W)
      → (sealed : Bytes) × (w' : W) × (manager.encrypt_data content w ≡ (ok sealed, w'))
        × (view w' ≡ view w)
        × ((v : W) → manager.decrypt_data sealed v ≡ (ok content, v))

-- The provider has one key for the entity in every state.
pub record HasKey {W : Type 0} (keys : KeyProvider W) (entity_id : Text)
    (manager : CryptoOperationsManager W) : Type 0 where
  pub finds : (w : W) → keys.find_by_entity_id entity_id w ≡ (ok manager, w)
  pub finds_or_creates : (w : W) → keys.find_or_create_entity entity_id w ≡ (ok manager, w)

-- The new row of an insert, as it is read back: the scheme is the one that wrote it.
abbrev pub vault_row : StorageScheme → VaultNew → Vault
vault_row scheme new = record {
  vault_id = new.vault_id;
  entity_id = new.entity_id;
  content = Encryptable.encrypted new.encrypted_data;
  created_at = new.created_at;
  expires_at = new.expires_at;
  updated_by = some scheme;
}

-- A store of vault rows, which are `rows` by vault and entity, as it is with the key-value layer
-- disabled: an update without an expiry leaves that of the row. (With the layer enabled it stores none.)
pub record IsVaultStore {W : Type 0} (db : VaultInterface W) (rows : W → Text → Text → Option Vault)
    : Type 0 where
  pub find_row :
      (w : W) (v e : Text) (row : Vault)
      → rows w v e ≡ some row
      → db.find_by_vault_id_entity_id v e w ≡ (ok row, w)
  pub insert_new :
      (w : W) (new : VaultNew)
      → rows w new.vault_id new.entity_id ≡ none
      → (scheme : StorageScheme) × (w' : W) × (db.insert_vault new w
          ≡ (ok (vault_row scheme new), w'))
        × (rows w' new.vault_id new.entity_id ≡ some (vault_row scheme new))
  pub insert_old :
      (w : W) (new : VaultNew) (row : Vault)
      → rows w new.vault_id new.entity_id ≡ some row
      → db.insert_vault new w ≡ (err VaultDbError.duplicate, w)
  pub update_row :
      (w : W) (v e : Text) (update : VaultUpdate) (row : Vault)
      → rows w v e ≡ some row
      → let row' : StorageScheme → Vault = λ scheme. record row {
        content = Encryptable.encrypted update.encrypted_data;
        expires_at = elim update.expires_at [ none ↦ row.expires_at | some t ↦ some t ];
        updated_by = some scheme;
      } in
        (scheme : StorageScheme) × (w' : W) × (db.update_vault_data v e update w
          ≡ (ok (row' scheme), w'))
        × (rows w' v e ≡ some (row' scheme))

-- The new row of an insert, as it is read back: the scheme is the one that wrote it.
abbrev pub locker_row : StorageScheme → LockerNew → Locker
locker_row scheme new = record {
  locker_id = new.locker_id;
  merchant_id = new.merchant_id;
  customer_id = new.customer_id;
  content = Encryptable.encrypted new.enc_data;
  created_at = new.created_at;
  hash_id = new.hash_id;
  ttl = new.ttl;
  updated_by = some scheme;
}

-- The rows of the hash table by the hash of the data, those of the locker table by locker, merchant and
-- customer, and the row of a customer for a hash, of which there is one at most.
pub record Cards : Type 0 where
  pub hash_rows : Bytes → Option HashTable
  pub rows : Text → Text → Text → Option Locker
  pub hashed : Text → Text → Text → Option Locker

-- A store with these rows in a state, as it is with the key-value layer disabled. The identifier of a new
-- hash is that of no locker, and a locker is inserted where both of its indexes are free.
pub record IsCardStore {W : Type 0} (hashes : HashInterface W) (lockers : LockerInterface W)
    (cards : W → Cards) : Type 0 where
  pub find_hash :
      (w : W) (h : Bytes) → hashes.find_optional_by_data_hash h w ≡ (ok ((cards w).hash_rows h), w)
  pub insert_hash :
      (w : W) (h : Bytes)
      → (cards w).hash_rows h ≡ none
      → (t : HashTable) × (w' : W) × (hashes.insert_hash h w ≡ (ok t, w'))
        × ((cards w').hash_rows h ≡ some t)
        × ((cards w').rows ≡ (cards w).rows)
        × ((m c : Text) → (cards w').hashed t.hash_id m c ≡ none)
  pub find_row :
      (w : W) (l m c : Text) (row : Locker)
      → (cards w).rows l m c ≡ some row
      → lockers.find_by_locker_id_merchant_id_customer_id l m c w ≡ (ok row, w)
  pub find_hashed :
      (w : W) (h m c : Text)
      → lockers.find_optional_by_hash_id_merchant_id_customer_id h m c w
        ≡ (ok ((cards w).hashed h m c), w)
  pub insert_new :
      (w : W) (new : LockerNew)
      → (cards w).rows new.locker_id new.merchant_id new.customer_id ≡ none
      → (cards w).hashed new.hash_id new.merchant_id new.customer_id ≡ none
      → (scheme : StorageScheme) × (w' : W) × (lockers.insert_locker new w
          ≡ (ok (locker_row scheme new), w'))
        × ((cards w').rows new.locker_id new.merchant_id new.customer_id
            ≡ some (locker_row scheme new))
        × ((cards w').hashed new.hash_id new.merchant_id new.customer_id
            ≡ some (locker_row scheme new))
        × ((cards w').hash_rows ≡ (cards w).hash_rows)
  pub insert_old :
      (w : W) (new : LockerNew) (row : Locker)
      → (cards w).rows new.locker_id new.merchant_id new.customer_id ≡ some row
      → (w' : W) × (lockers.insert_locker new w ≡ (err VaultDbError.duplicate, w'))
        × ((cards w').rows ≡ (cards w).rows)

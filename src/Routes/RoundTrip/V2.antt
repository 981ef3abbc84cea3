-- ===== src/Routes/RoundTrip/V2.antt =====
-- The routes of version 2: what was stored is retrieved, routes/routes_v2/data.rs.
use hyperswitch_card_vault.Common.{◌≡◌, ◌∙◌, refl, Option, none, some, Text, ok}
use hyperswitch_card_vault.Storage.Scheme.{StorageScheme}
use hyperswitch_card_vault.Storage.Rows.{
  Bytes, Encryptable, get_encrypted_inner_value, from_decrypted_data, get_decrypted_inner_value,
}
use hyperswitch_card_vault.Storage.Vaults.{Vault, VaultNew, update_of_new}
use hyperswitch_card_vault.Domain.{VaultInterface, get_or_insert_vault, insert_or, or_conflict}
use hyperswitch_card_vault.Domain
use hyperswitch_card_vault.KeyManager.{KeyProvider, CryptoOperationsManager}
use hyperswitch_card_vault.Routes.Types.{validate_ttl}
use hyperswitch_card_vault.Routes.Data.{Runtime, decrypt_data}
use hyperswitch_card_vault.Routes.DataV2.{
  StoreDataRequest, WriteMode, ValueCodec, VaultReference, vault_new, write, add_data,
  retrieve_data, retrieved_value, decrypt_vault, store_data_response,
  encrypt_data_and_upsert_into_db_v2,
}
use hyperswitch_card_vault.Routes.Laws.{
  expiring, check_expiry-expiring, IsManager, HasKey, IsVaultStore, vault_row,
}

module _ {W V : Type 0} (runtime : Runtime W) (codec : ValueCodec V) (db : VaultInterface W)
    (keys : KeyProvider W) (rows : W → Text → Text → Option Vault) (store : IsVaultStore db rows)
    (manager : CryptoOperationsManager W) where
  -- A row that opens to a text of a value reads as the value, unless it has expired.
  retrieve-row :
      (request : VaultReference) (w : W) (row : Vault) (sealed plain : Bytes) (value : V)
      → HasKey keys request.entity_id manager
      → rows w request.vault_id request.entity_id ≡ some row
      → row.content ≡ Encryptable.encrypted sealed
      → manager.decrypt_data sealed w ≡ (ok plain, w)
      → codec.value_from_slice plain ≡ some value
      → retrieve_data runtime codec db keys request w
        ≡ expiring runtime
            (db.delete_from_vault request.vault_id request.entity_id)
            row.expires_at
            (ok value)
            w
  unfolding retrieve_data retrieved_value decrypt_vault decrypt_data get_encrypted_inner_value
      get_decrypted_inner_value from_decrypted_data
  retrieve-row request w row sealed plain value has there content opens reads = simp (
    has.finds w,
    store.find_row w request.vault_id request.entity_id row there,
    content,
    opens,
    reads,
    check_expiry-expiring,
  )

  write-new :
      (mode : Option WriteMode) (new : VaultNew) (v : W)
      → rows v new.vault_id new.entity_id ≡ none
      → (scheme : StorageScheme) × (w' : W) × (write db mode new v
          ≡ (ok (vault_row scheme new), w'))
        × (rows w' new.vault_id new.entity_id ≡ some (vault_row scheme new))
  unfolding write get_or_insert_vault Domain.upsert insert_or or_conflict
  write-new none new v h =
      let (scheme, w', wrote, there) = store.insert_new v new h in (scheme, w', simp wrote, there)
  write-new (some WriteMode.insert) new v h =
      let (scheme, w', wrote, there) = store.insert_new v new h in (scheme, w', simp wrote, there)
  write-new (some WriteMode.upsert) new v h =
      let (scheme, w', wrote, there) = store.insert_new v new h in (scheme, w', simp wrote, there)

  -- The row after an update.
  abbrev updated : StorageScheme → Vault → VaultNew → Vault
  updated scheme row new = record row {
    content = Encryptable.encrypted new.encrypted_data;
    expires_at = elim new.expires_at [ none ↦ row.expires_at | some t ↦ some t ];
    updated_by = some scheme;
  }

  write-old :
      (new : VaultNew) (v : W) (row : Vault)
      → rows v new.vault_id new.entity_id ≡ some row
      → (scheme : StorageScheme) × (w' : W) × (write db (some WriteMode.upsert) new v
          ≡ (ok (updated scheme row new), w'))
        × (rows w' new.vault_id new.entity_id ≡ some (updated scheme row new))
  unfolding write Domain.upsert insert_or or_conflict update_of_new
  write-old new v row h =
      let (scheme, w', wrote, there) =
        store.update_row v new.vault_id new.entity_id (update_of_new new) row h in
      (scheme, w', simp (store.insert_old v new row h, wrote), there)

  module _ (request : StoreDataRequest V) (w : W) (plain : Bytes)
      (has : HasKey keys request.entity_id manager)
      (manages : IsManager manager (λ u. rows u request.vault_id request.entity_id))
      (valid : validate_ttl (runtime.now w) request.ttl ≡ ok tt)
      (writes : codec.value_to_vec request.content ≡ some plain)
      (reads : codec.value_from_slice plain ≡ some request.content) where
    abbrev reference : VaultReference
    reference = record { entity_id = request.entity_id; vault_id = request.vault_id }

    add_data_lem :
        (mode : Option WriteMode) (sealed : Bytes) (w1 w' : W) (row : Vault)
        → manager.encrypt_data plain w ≡ (ok sealed, w1)
        → write db mode (vault_new request sealed (runtime.now w1)) w1 ≡ (ok row, w')
        → add_data runtime codec db keys mode request w ≡ (ok (store_data_response row), w')
    unfolding add_data encrypt_data_and_upsert_into_db_v2
    add_data_lem mode sealed w1 w' row encrypts wrote =
        simp (valid, has.finds_or_creates w, writes, encrypts, wrote)

    -- For an entity that has a key, a request whose time to live is valid and whose content becomes JSON
    -- that reads back as it, and no row under its identifiers: a store in any mode answers the
    -- identifiers, and a retrieve then answers the content, unless the clock is past the time to live,
    -- when it answers that nothing is found and spawns the deletion.
    pub add_then_retrieve_data :
        (mode : Option WriteMode)
        → rows w request.vault_id request.entity_id ≡ none
        → (w' : W) × (add_data runtime codec db keys mode request w ≡ (ok reference, w'))
          × (retrieve_data runtime codec db keys reference w'
              ≡ expiring runtime
                  (db.delete_from_vault request.vault_id request.entity_id)
                  request.ttl
                  (ok request.content)
                  w')
    unfolding vault_new store_data_response
    add_then_retrieve_data mode h =
        let (sealed, w1, encrypts, same, opens) = manages.seals plain w in
        let new = vault_new request sealed (runtime.now w1) in
        let (scheme, w', wrote, there) = write-new mode new w1 (same ∙ h) in
        (
          w',
          add_data_lem mode sealed w1 w' (vault_row scheme new) encrypts wrote,
          retrieve-row reference w' (vault_row scheme new) sealed plain request.content has there
              refl (opens w') reads,
        )

    -- For an entity that has a key, a request whose time to live is valid and whose content becomes JSON
    -- that reads back as it, and a row under its identifiers: an upsert answers the row's identifiers,
    -- and a retrieve then answers the new content, unless the clock is past the time to live of the
    -- request or, where it has none, past that of the old row.
    pub upsert_then_retrieve_data :
        (row : Vault)
        → rows w request.vault_id request.entity_id ≡ some row
        → (w' : W) × (add_data runtime codec db keys (some WriteMode.upsert) request w
            ≡ (ok (store_data_response row), w'))
          × (retrieve_data runtime codec db keys reference w'
              ≡ expiring runtime
                  (db.delete_from_vault request.vault_id request.entity_id)
                  (elim request.ttl [ none ↦ row.expires_at | some t ↦ some t ])
                  (ok request.content)
                  w')
    unfolding vault_new store_data_response
    upsert_then_retrieve_data row h =
        let (sealed, w1, encrypts, same, opens) = manages.seals plain w in
        let new = vault_new request sealed (runtime.now w1) in
        let (scheme, w', wrote, there) = write-old new w1 row (same ∙ h) in
        (
          w',
          add_data_lem (some WriteMode.upsert) sealed w1 w' (updated scheme row new) encrypts wrote,
          retrieve-row reference w' (updated scheme row new) sealed plain request.content has there
              refl (opens w') reads,
        )

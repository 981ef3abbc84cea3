-- ===== src/KeyManager/External/Laws.antt =====
-- The creation of entities with a key in the key manager: crypto/keymanager/external_keymanager.rs.
use hyperswitch_card_vault.Common.{◌≡◌, ◌∙◌, Option, none, some, Text, ok, err}
use hyperswitch_card_vault.Error.Types.{ApiError, EntityDbError}
use hyperswitch_card_vault.Error.ToApi.{api_of_entity}
use hyperswitch_card_vault.Storage.Rows.{Entity}
use hyperswitch_card_vault.KeyManager.External.{
  Service, EntityInterface, Identifier, DataKeyCreateResponse, create_key_in_key_manager, create,
  or_missing, find_or_create, external_key_manager, get_identifier,
}

-- A store of entities: `rows` has the entities that can be read.
pub record IsEntityStore {W : Type 0} (db : EntityInterface W) (rows : W → Text → Option Entity)
    : Type 0 where
  pub find_row :
      (w : W) (id : Text) (row : Entity)
      → rows w id ≡ some row
      → db.find_by_entity_id id w ≡ (ok row, w)
  pub find_missing :
      (w : W) (id : Text)
      → rows w id ≡ none
      → db.find_by_entity_id id w ≡ (err EntityDbError.not_found_error, w)
  pub insert_new :
      (w : W) (id key : Text)
      → rows w id ≡ none
      → (row : Entity) × (w' : W) × (db.insert_entity id key w ≡ (ok row, w'))
        × (rows w' id ≡ some row)
        × (row.entity_id ≡ id)
        × (row.enc_key_id ≡ key)
  pub insert_old :
      (w : W) (id key : Text) (row : Entity)
      → rows w id ≡ some row
      → db.insert_entity id key w ≡ (err EntityDbError.duplicate, w)

-- A key manager that makes a key in every state, and leaves the entities.
pub record MakesKeys {W B : Type 0} (state : Service W B) (rows : W → Text → Option Entity)
    : Type 0 where
  pub makes :
      (identifier : Identifier) (w : W)
      → (made : DataKeyCreateResponse) × (w' : W) × (create_key_in_key_manager state
            (record { identifier = identifier })
            w
          ≡ (ok made, w'))
        × ((id : Text) → rows w' id ≡ rows w id)

module _ {W B : Type 0} (state : Service W B) (db : EntityInterface W) (generate_nano_id : W → Text)
    (rows : W → Text → Option Entity) (store : IsEntityStore db rows)
    (service : MakesKeys state rows) where
  create_new :
      (id : Text) (w : W)
      → rows w id ≡ none
      → (row : Entity) × (w' : W) × (create state db generate_nano_id id w ≡ (ok row, w'))
        × (rows w' id ≡ some row)
        × (row.entity_id ≡ id)
  unfolding create
  create_new id w h =
      let (made, w1, key, same) = service.makes (Identifier.entity (generate_nano_id w)) w in
      let (row, w', inserted, there, own, kept) =
        store.insert_new w1 id (get_identifier made.identifier) (same id ∙ h) in
      (row, w', simp (key, inserted), there, own)

  create_old :
      (id : Text) (w : W) (row : Entity)
      → rows w id ≡ some row
      → (w' : W) × (create state db generate_nano_id id w
          ≡ (err (ApiError.database_insert_failed "entity"), w'))
        × (rows w' id ≡ some row)
  unfolding create api_of_entity
  create_old id w row h =
      let (made, w1, key, same) = service.makes (Identifier.entity (generate_nano_id w)) w in
      (
        w1,
        simp (key, store.insert_old w1 id (get_identifier made.identifier) row (same id ∙ h)),
        same id ∙ h,
      )

  -- On a store of entities and a key manager that makes keys, `create_entity` for an entity without a
  -- row answers the entity and makes its row; a later `create_entity` answers the same and changes
  -- nothing; but the rest of a call whose read came before the row is an error of the insert, though the
  -- row is there and stays.
  pub create_entity_raced :
      (id : Text) (w : W)
      → rows w id ≡ none
      → let manager = external_key_manager state db generate_nano_id in
        (row : Entity) × (w' : W) × (w'' : W) × (manager.create_entity id w
          ≡ (ok (record { entity_id = id; created_at = row.created_at }), w'))
        × (rows w' id ≡ some row)
        × (manager.create_entity id w'
            ≡ (ok (record { entity_id = id; created_at = row.created_at }), w'))
        × (or_missing state db generate_nano_id id (err EntityDbError.not_found_error) w'
            ≡ (err (ApiError.database_insert_failed "entity"), w''))
        × (rows w'' id ≡ some row)
  unfolding external_key_manager find_or_create or_missing
  create_entity_raced id w h =
      let (row, w', made, there, own) = create_new id w h in
      let (w'', raced, stays) = create_old id w' row there in
      (
        row,
        w',
        w'',
        simp (store.find_missing w id h, made, own),
        there,
        simp (store.find_row w' id row there, own),
        raced,
        stays,
      )

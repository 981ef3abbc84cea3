-- ===== src/KeyManager/Internal/Laws.antt =====
-- The lazy creation of merchants: crypto/keymanager/internal_keymanager.rs and domain/merchant.rs.
use hyperswitch_card_vault.Common.{◌≡◌, Option, none, some, Text, ok, err, raised}
use hyperswitch_card_vault.Error.Types.{MerchantDbError}
use hyperswitch_card_vault.Storage.Rows.{Bytes, Merchant}
use hyperswitch_card_vault.Storage.Merchants.{MerchantNew}
use hyperswitch_card_vault.KeyManager.Internal.{
  MerchantInterface, after_insert, or_missing, create, find_or_create,
}

-- A store of merchants under one key: `rows` has the merchants that can be read.
pub record IsMerchantStore {W : Type 0} (db : MerchantInterface W) (key : Bytes)
    (rows : W → Text → Option Merchant) : Type 0 where
  pub find_row :
      (w : W) (id : Text) (m : Merchant)
      → rows w id ≡ some m
      → db.find_by_merchant_id id key w ≡ (ok m, w)
  pub find_missing :
      (w : W) (id : Text)
      → rows w id ≡ none
      → db.find_by_merchant_id id key w ≡ (err (raised MerchantDbError.not_found_error), w)
  pub insert_new :
      (w : W) (new : MerchantNew)
      → rows w new.merchant_id ≡ none
      → (m : Merchant) × (w' : W) × (db.insert_merchant new key w ≡ (ok m, w'))
        × (rows w' new.merchant_id ≡ some m)
        × (m.enc_key ≡ new.enc_key)
  pub insert_old :
      (w : W) (new : MerchantNew) (m : Merchant)
      → rows w new.merchant_id ≡ some m
      → db.insert_merchant new key w ≡ (err (raised MerchantDbError.duplicate), w)

module _ {W : Type 0} (db : MerchantInterface W) (generate_aes256_key : W → Bytes) (key : Bytes)
    (rows : W → Text → Option Merchant) (store : IsMerchantStore db key rows) where
  create_old :
      (id : Text) (w : W) (m : Merchant)
      → rows w id ≡ some m
      → create db generate_aes256_key id key w ≡ (ok m, w)
  unfolding create after_insert
  create_old id w m h = simp (
    store.insert_old w (record { merchant_id = id; enc_key = generate_aes256_key w }) m h,
    store.find_row w id m h,
  )

  create_new :
      (id : Text) (w : W)
      → rows w id ≡ none
      → (m : Merchant) × (w' : W) × (create db generate_aes256_key id key w ≡ (ok m, w'))
        × (rows w' id ≡ some m)
        × (m.enc_key ≡ generate_aes256_key w)
  unfolding create after_insert
  create_new id w h =
      let (m, w', inserted, there, same) =
        store.insert_new w (record { merchant_id = id; enc_key = generate_aes256_key w }) h in
      (m, w', simp inserted, there, same)

  pub find_or_create-old :
      (id : Text) (w : W) (m : Merchant)
      → rows w id ≡ some m
      → find_or_create db generate_aes256_key id key w ≡ (ok m, w)
  unfolding find_or_create or_missing
  find_or_create-old id w m h = simp (store.find_row w id m h)

  -- On a store of merchants, `find_or_create` for a merchant without a row makes one that has the
  -- generated key; a later `find_or_create` is that row and changes nothing, and so is the rest of a
  -- call whose read came before the row.
  pub find_or_create-new :
      (id : Text) (w : W)
      → rows w id ≡ none
      → (m : Merchant) × (w' : W) × (find_or_create db generate_aes256_key id key w ≡ (ok m, w'))
        × (m.enc_key ≡ generate_aes256_key w)
        × (find_or_create db generate_aes256_key id key w' ≡ (ok m, w'))
        × (or_missing
              (create db generate_aes256_key id key)
              (err (raised MerchantDbError.not_found_error))
              w'
            ≡ (ok m, w'))
  unfolding find_or_create or_missing
  find_or_create-new id w h =
      let (m, w', made, there, same) = create_new id w h in
      (
        m,
        w',
        simp (store.find_missing w id h, made),
        same,
        find_or_create-old id w' m there,
        create_old id w' m there,
      )

-- ===== src/Routes/Postgres/Upsert.antt =====
-- An upsert of version 2 and the retrieve after it on the vault table of a Postgres with the key-value
-- layer disabled: routes/routes_v2/data.rs and storage/storage_v2/db.rs.
use hyperswitch_card_vault.Common.{◌≡◌, ap, Option, none, some, Text, ok}
use hyperswitch_card_vault.Storage.Rows.{Bytes}
use hyperswitch_card_vault.Storage.Vaults.{VaultInner, VaultNewInner, VaultUpdate, vault_of_inner}
use hyperswitch_card_vault.Storage.World.{Pools}
use hyperswitch_card_vault.Kv.Wrapper.{Serde, KvStore}
use hyperswitch_card_vault.Kv.Impls.{Table, DeletableTable, UpdatableTable}
use hyperswitch_card_vault.Kv.Impls.Vaults.{VaultPrimaryKey}
use hyperswitch_card_vault.Domain.{VaultInterface}
use hyperswitch_card_vault.KeyManager.{KeyProvider, CryptoOperationsManager}
use hyperswitch_card_vault.Routes.Types.{validate_ttl}
use hyperswitch_card_vault.Routes.Data.{Runtime}
use hyperswitch_card_vault.Routes.DataV2.{
  StoreDataRequest, WriteMode, ValueCodec, VaultReference, add_data, retrieve_data,
  store_data_response,
}
use hyperswitch_card_vault.Routes.Laws.{expiring, IsManager, HasKey}
use hyperswitch_card_vault.Routes.Postgres.{
  IsVaultTable, as_vault, postgres_vaults, postgres_vaults-IsVaultStore,
}
use hyperswitch_card_vault.Routes.RoundTrip.V2.{upsert_then_retrieve_data}

module _ {R D V : Type 0} (store : KvStore R) (pools : Pools D) (serde : Serde VaultInner)
    (table : Table D VaultNewInner VaultInner VaultPrimaryKey)
    (updatable : UpdatableTable D VaultUpdate VaultInner VaultPrimaryKey)
    (deletable : DeletableTable D VaultPrimaryKey) (redis : R)
    (rows : D → Text → Text → Option VaultInner)
    (is_table : IsVaultTable pools table updatable rows) (runtime : Runtime D)
    (codec : ValueCodec V) (keys : KeyProvider D) (manager : CryptoOperationsManager D) where
  abbrev vaults : VaultInterface D
  vaults = postgres_vaults store pools serde table updatable deletable redis

  -- With the key-value layer disabled, on a Postgres that grants connections and whose vault table has
  -- one row for an identifier and an entity: for an entity that has a key, a request whose time to live
  -- is valid and whose content becomes JSON that reads back as it, and a row under its identifiers, an
  -- upsert answers the row's identifiers, and a retrieve then answers the new content, unless the clock
  -- is past the time to live of the request or, where it has none, past that of the old row, when it
  -- answers that nothing is found and spawns the deletion.
  pub upsert_then_retrieve :
      (request : StoreDataRequest V) (d : D) (plain : Bytes) (row : VaultInner)
      → HasKey keys request.entity_id manager
      → IsManager manager (λ u. as_vault (rows u request.vault_id request.entity_id))
      → validate_ttl (runtime.now d) request.ttl ≡ ok tt
      → codec.value_to_vec request.content ≡ some plain
      → codec.value_from_slice plain ≡ some request.content
      → rows d request.vault_id request.entity_id ≡ some row
      → let reference : VaultReference = record {
        entity_id = request.entity_id;
        vault_id = request.vault_id;
      } in
        (d' : D) × (add_data runtime codec vaults keys (some WriteMode.upsert) request d
          ≡ (ok (store_data_response (vault_of_inner row)), d'))
        × (retrieve_data runtime codec vaults keys reference d'
            ≡ expiring runtime
                (vaults.delete_from_vault request.vault_id request.entity_id)
                (elim request.ttl [ none ↦ row.expires_at | some t ↦ some t ])
                (ok request.content)
                d')
  unfolding vault_of_inner
  upsert_then_retrieve request d plain row has manages valid writes reads there =
      upsert_then_retrieve_data runtime codec vaults keys (λ u v e. as_vault (rows u v e))
        (postgres_vaults-IsVaultStore store pools serde table updatable deletable redis rows
          is_table)
        manager request d plain has manages valid writes reads (vault_of_inner row)
        (ap as_vault there)

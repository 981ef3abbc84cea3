-- ===== src/Routes/Postgres.antt =====
-- The operations of storage/storage_v2/db.rs on the vault table with the key-value layer disabled, on a
-- Postgres with connections.
pub mod Cards
pub mod Upsert
use hyperswitch_card_vault.Common.{
  ℕ, ◌≡◌, refl, subst, true, Option, none, some, Text, ok, err, Exec, arith,
}
use hyperswitch_card_vault.Error.Types.{VaultDbError}
use hyperswitch_card_vault.Error.Classify.{DieselError}
use hyperswitch_card_vault.Storage.Scheme.{StorageScheme}
use hyperswitch_card_vault.Storage.Rows.{Encryptable}
use hyperswitch_card_vault.Storage.Vaults.{
  Vault, VaultNew, VaultUpdate, VaultInner, VaultNewInner, new_inner_of_new, inner_of_new_inner,
  vault_of_inner, set_updated_by,
}
use hyperswitch_card_vault.Storage.World.{
  World, Pools, DbPool, kv_settings, get_conn, route_conn, should_use_replica, has_replica,
}
use hyperswitch_card_vault.Kv.Wrapper.{Serde, KvStore}
use hyperswitch_card_vault.Kv.Resource.{
  scheme_for_insert, scheme_for_find, scheme_for_mutate, decide_storage_scheme_for_mutate_operation,
}
use hyperswitch_card_vault.Kv.Resource.Insert.{insert_resource, insert_resource_inner, insert_under}
use hyperswitch_card_vault.Kv.Resource.Find.{
  find_optional_resource_by_id, find_resource_by_id, find_resource_by_id_inner, find_under,
  optional,
}
use hyperswitch_card_vault.Kv.Resource.Mutate.{update_resource_by_id, update_under}
use hyperswitch_card_vault.Kv.Impls.{Table, DeletableTable, UpdatableTable}
use hyperswitch_card_vault.Kv.Impls.Vaults.{
  VaultPrimaryKey, insert_vault, find_by_vault_id_entity_id, update_vault_data, delete_from_vault,
}
use hyperswitch_card_vault.Domain.{VaultInterface}
use hyperswitch_card_vault.Routes.Laws.{IsVaultStore, vault_row}

abbrev vault_key : Text → Text → VaultPrimaryKey
vault_key vault_id entity_id = record { entity_id = entity_id; vault_id = vault_id }

-- diesel's changeset, which leaves a column whose value is none.
abbrev pub changed : VaultInner → VaultUpdate → VaultInner
changed row update = record row {
  encrypted_data = update.encrypted_data;
  expires_at = elim update.expires_at [ none ↦ row.expires_at | some t ↦ some t ];
  updated_by = some update.updated_by;
}

-- A database that grants connections, whose table has one row for a vault and an entity.
pub record IsVaultTable {D : Type 0} (pools : Pools D)
    (table : Table D VaultNewInner VaultInner VaultPrimaryKey)
    (updatable : UpdatableTable D VaultUpdate VaultInner VaultPrimaryKey)
    (rows : D → Text → Text → Option VaultInner) : Type 0 where
  pub granted : (d : D) → pools.primary_pg_pool d ≡ true
  pub select_row :
      (d : D) (v e : Text) (row : VaultInner)
      → rows d v e ≡ some row
      → table.select DbPool.primary (vault_key v e) d ≡ (ok row, d)
  pub insert_new :
      (d : D) (new : VaultNewInner)
      → rows d new.vault_id new.entity_id ≡ none
      → (id : ℕ) × (d' : D) × (table.insert DbPool.primary new d
          ≡ (ok (record (inner_of_new_inner new) { id = id }), d'))
        × (rows d' new.vault_id new.entity_id ≡ some (record (inner_of_new_inner new) { id = id }))
  pub insert_old :
      (d : D) (new : VaultNewInner) (row : VaultInner)
      → rows d new.vault_id new.entity_id ≡ some row
      → table.insert DbPool.primary new d ≡ (err DieselError.unique_violation, d)
  pub update_row :
      (d : D) (v e : Text) (update : VaultUpdate) (row : VaultInner)
      → rows d v e ≡ some row
      → (d' : D) × (updatable.update DbPool.primary update (vault_key v e) d
          ≡ (ok (changed row update), d'))
        × (rows d' v e ≡ some (changed row update))

abbrev pub as_vault : Option VaultInner → Option Vault
as_vault none = none
as_vault (some inner) = some (vault_of_inner inner)

as_vault-some :
    (o : Option VaultInner) (row : Vault)
    → as_vault o ≡ some row
    → (inner : VaultInner) × (o ≡ some inner) × (vault_of_inner inner ≡ row)
as_vault-some none row h = absurd cc
as_vault-some (some inner) row h = (inner, refl, ground (arith, h))

as_vault-none : (o : Option VaultInner) → as_vault o ≡ none → o ≡ none
as_vault-none none h = refl
as_vault-none (some inner) h = absurd cc

module _ {R D : Type 0} (redis : R) where
  abbrev pub disabled : D → World R D
  disabled d = record { redis = redis; db = d; runtime_config = none }

  -- An operation while no runtime configuration is known, which disables the key-value layer.
  abbrev pub on_postgres : {E A : Type 0} → Exec (World R D) E A → Exec D E A
  on_postgres m d = let (a, w) = m (disabled d) in (a, w.db)

-- A database that grants connections.
module _ {R D : Type 0} (redis : R) (pools : Pools D)
    (granted : (d : D) → pools.primary_pg_pool d ≡ true) where
  pub primary : (d : D) → get_conn pools (disabled redis d) ≡ (ok DbPool.primary, disabled redis d)
  unfolding get_conn
  primary d = rw (get_conn, granted d) refl

  pub routed : (d : D) → route_conn pools (disabled redis d) ≡ (ok DbPool.primary, disabled redis d)
  unfolding route_conn should_use_replica has_replica
  routed d = ground (arith, primary d)

module _ {R D : Type 0} (store : KvStore R) (pools : Pools D) (serde : Serde VaultInner)
    (table : Table D VaultNewInner VaultInner VaultPrimaryKey)
    (updatable : UpdatableTable D VaultUpdate VaultInner VaultPrimaryKey)
    (deletable : DeletableTable D VaultPrimaryKey) (redis : R) where
  abbrev pub postgres_vaults : VaultInterface D
  postgres_vaults = record {
    insert_vault = λ new. on_postgres redis (insert_vault store pools serde table new);
    find_by_vault_id_entity_id =
        λ v e. on_postgres redis (find_by_vault_id_entity_id store pools serde table v e);
    update_vault_data = λ v e update.
        on_postgres redis (update_vault_data store pools serde table updatable v e update);
    delete_from_vault =
        λ v e. on_postgres redis (delete_from_vault store pools serde table deletable v e);
  }

  module _ (rows : D → Text → Text → Option VaultInner)
      (is_table : IsVaultTable pools table updatable rows) where
    find_lem :
        (d : D) (v e : Text) (row : Vault)
        → as_vault (rows d v e) ≡ some row
        → postgres_vaults.find_by_vault_id_entity_id v e d ≡ (ok row, d)
    unfolding find_by_vault_id_entity_id find_optional_resource_by_id find_resource_by_id
        find_resource_by_id_inner find_under optional scheme_for_find kv_settings
    find_lem d v e row h =
        let (inner, there, same) = as_vault-some (rows d v e) row h in
        simp (routed redis pools is_table.granted d, is_table.select_row d v e inner there, same)

    -- The row that goes to the table.
    abbrev stamped : VaultNew → VaultNewInner
    unfolding new_inner_of_new set_updated_by
    stamped new = set_updated_by (new_inner_of_new new) StorageScheme.postgres_only

    insert_lem :
        (d : D) (new : VaultNew)
        → as_vault (rows d new.vault_id new.entity_id) ≡ none
        → (scheme : StorageScheme) × (d' : D) × (postgres_vaults.insert_vault new d
            ≡ (ok (vault_row scheme new), d'))
          × (as_vault (rows d' new.vault_id new.entity_id) ≡ some (vault_row scheme new))
    unfolding insert_vault insert_resource insert_resource_inner insert_under scheme_for_insert
        kv_settings inner_of_new_inner vault_of_inner stamped
    insert_lem d new h =
        let (id, d', wrote, there) =
          is_table.insert_new d (stamped new)
            (as_vault-none (rows d new.vault_id new.entity_id) h) in
        (
          StorageScheme.postgres_only,
          d',
          simp (primary redis pools is_table.granted d, wrote),
          simp there,
        )

    insert_old_lem :
        (d : D) (new : VaultNew) (row : Vault)
        → as_vault (rows d new.vault_id new.entity_id) ≡ some row
        → postgres_vaults.insert_vault new d ≡ (err VaultDbError.duplicate, d)
    unfolding insert_vault insert_resource insert_resource_inner insert_under scheme_for_insert
        kv_settings stamped
    insert_old_lem d new row h =
        let (inner, there, same) = as_vault-some (rows d new.vault_id new.entity_id) row h in
        simp
          (primary redis pools is_table.granted d, is_table.insert_old d (stamped new) inner there)

    -- What the routes rely on in an update of a row.
    abbrev Updates : D → Text → Text → VaultUpdate → Vault → Type 0
    Updates d v e update row =
        let row' : StorageScheme → Vault = λ scheme. record row {
          content = Encryptable.encrypted update.encrypted_data;
          expires_at = elim update.expires_at [ none ↦ row.expires_at | some t ↦ some t ];
          updated_by = some scheme;
        } in
        (scheme : StorageScheme) × (d' : D) × (postgres_vaults.update_vault_data v e update d
          ≡ (ok (row' scheme), d'))
        × (as_vault (rows d' v e) ≡ some (row' scheme))

    update_inner :
        (d : D) (v e : Text) (update : VaultUpdate) (inner : VaultInner)
        → rows d v e ≡ some inner
        → let row' : Vault =
            vault_of_inner
              (changed inner (record update { updated_by = StorageScheme.postgres_only })) in
          (d' : D) × (postgres_vaults.update_vault_data v e update d ≡ (ok row', d'))
          × (as_vault (rows d' v e) ≡ some row')
    unfolding update_vault_data update_resource_by_id update_under scheme_for_mutate
        decide_storage_scheme_for_mutate_operation kv_settings
    update_inner d v e update inner h =
        let (d', wrote, there) =
          is_table.update_row d v e (record update { updated_by = StorageScheme.postgres_only })
            inner h in
        (d', simp (primary redis pools is_table.granted d, wrote), simp there)

    -- With the key-value layer disabled, on a Postgres that grants connections and whose vault table has
    -- one row for an identifier and an entity: the operations on the vault are a store as the routes of
    -- version 2 rely on, whose rows are those of the table.
    pub postgres_vaults-IsVaultStore : IsVaultStore postgres_vaults (λ d v e. as_vault (rows d v e))
    unfolding vault_of_inner
    postgres_vaults-IsVaultStore = record {
      find_row = find_lem;
      insert_new = insert_lem;
      insert_old = insert_old_lem;
      update_row = λ d v e update row h.
          let (inner, there, same) = as_vault-some (rows d v e) row h in
          let (d', wrote, there') = update_inner d v e update inner there in
          subst (Updates d v e update) same (StorageScheme.postgres_only, d', wrote, there');
    }

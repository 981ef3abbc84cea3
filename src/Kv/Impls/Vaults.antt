-- ===== src/Kv/Impls/Vaults.antt =====
-- storage/kv/impls/vault.rs and storage/storage_v2/db.rs.
use hyperswitch_card_vault.Common.{ℕ, Text, codes, Exec, map_exec, pure, ok_or, ◌>>=◌}
use hyperswitch_card_vault.Error.Types.{VaultDbError}
use hyperswitch_card_vault.Error.FromStorage.{vault_of_storage}
use hyperswitch_card_vault.Error.Classify.{vault_errors}
use hyperswitch_card_vault.Storage.Vaults.{
  Vault, VaultNew, VaultUpdate, VaultInner, VaultNewInner, from_update, new_inner_of_new,
  inner_of_new_inner, vault_of_inner, set_updated_by,
}
use hyperswitch_card_vault.Storage.World.{World, Pools, get_conn, route_conn}
use hyperswitch_card_vault.Kv.Errors.{vault_of_kv}
use hyperswitch_card_vault.Kv.Keys.{PartitionKey}
use hyperswitch_card_vault.Kv.Query.{
  generate_insert_query, generate_delete_query, generate_update_query,
}
use hyperswitch_card_vault.Kv.Wrapper.{Serde, KvStore}
use hyperswitch_card_vault.Kv.Resource.{KvResource, KvDeletableResource, KvUpdatableResource}
use hyperswitch_card_vault.Kv.Resource.Insert.{insert_resource}
use hyperswitch_card_vault.Kv.Resource.Find.{find_optional_resource_by_id}
use hyperswitch_card_vault.Kv.Resource.Mutate.{update_resource_by_id, delete_resource_by_id}
use hyperswitch_card_vault.Kv.Impls.{Table, DeletableTable, UpdatableTable, run_query}

pub record VaultPrimaryKey : Type 0 where
  pub entity_id : Text
  pub vault_id : Text

abbrev pub vault_partition_key : VaultPrimaryKey → PartitionKey
vault_partition_key self = PartitionKey.vault self.entity_id self.vault_id

module _ {R D : Type 0} (store : KvStore R) (pools : Pools D) (serde : Serde VaultInner)
    (table : Table D VaultNewInner VaultInner VaultPrimaryKey) where
  abbrev pub vault_resource :
      KvResource R D VaultDbError Vault VaultNewInner VaultInner VaultPrimaryKey
  vault_resource = record {
    entity_type = codes "vault";
    errors = vault_errors;
    of_kv = vault_of_kv;
    serde = serde;
    entity_of_new = inner_of_new_inner;
    self_of_entity = vault_of_inner;
    get_partition_key = vault_partition_key;
    set_storage_scheme = λ scheme new_object. set_updated_by new_object scheme;
    generate_insert_drainer_query =
        λ new_object. generate_insert_query (codes "vault") (table.insert_fragment new_object);
    storage_insert = λ new_object.
        run_query vault_of_storage vault_errors (get_conn pools)
          (λ pool. table.insert pool new_object);
    storage_find = λ pk.
        run_query vault_of_storage vault_errors (route_conn pools) (λ pool. table.select pool pk);
  }

  unfoldable pub insert_vault : VaultNew → Exec (World R D) VaultDbError Vault
  insert_vault new =
      insert_resource store vault_resource (new_inner_of_new new)
        (PartitionKey.vault new.entity_id new.vault_id)

  unfoldable pub find_by_vault_id_entity_id : Text → Text → Exec (World R D) VaultDbError Vault
  find_by_vault_id_entity_id vault_id entity_id = do
    vault ←
        find_optional_resource_by_id store vault_resource
          (record { entity_id = entity_id; vault_id = vault_id })
    pure (ok_or VaultDbError.not_found_error vault)

  module _ (updatable : UpdatableTable D VaultUpdate VaultInner VaultPrimaryKey) where
    abbrev pub vault_updatable :
        KvUpdatableResource R D VaultDbError Vault VaultUpdate VaultInner VaultPrimaryKey
    vault_updatable = record {
      set_update_storage_scheme = λ scheme update. record update { updated_by = scheme };
      generate_update_drainer_query =
          λ update pk. generate_update_query (codes "vault") (updatable.update_fragment update pk);
      apply_update = from_update;
      storage_update = λ update pk. map_exec vault_of_inner (
          run_query vault_of_storage vault_errors (get_conn pools)
            (λ pool. updatable.update pool update pk));
    }

    unfoldable pub update_vault_data :
        Text → Text → VaultUpdate → Exec (World R D) VaultDbError Vault
    update_vault_data vault_id entity_id update =
        update_resource_by_id store vault_resource vault_updatable update
          (record { entity_id = entity_id; vault_id = vault_id })

  module _ (deletable : DeletableTable D VaultPrimaryKey) where
    abbrev pub vault_deletable : KvDeletableResource R D VaultDbError VaultPrimaryKey
    vault_deletable = record {
      generate_delete_drainer_query =
          λ pk. generate_delete_query (codes "vault") (deletable.delete_fragment pk);
      storage_delete = λ pk.
          run_query vault_of_storage vault_errors (get_conn pools)
            (λ pool. deletable.delete pool pk);
    }

    unfoldable pub delete_from_vault : Text → Text → Exec (World R D) VaultDbError ℕ
    delete_from_vault vault_id entity_id =
        delete_resource_by_id store vault_resource vault_deletable
          (record { entity_id = entity_id; vault_id = vault_id })

-- ===== src/Storage/Vaults.antt =====
-- storage/storage_v2/types.rs: the rows of the vault table.
use hyperswitch_card_vault.Common.{ℕ, Option, some, Text}
use hyperswitch_card_vault.Storage.Scheme.{StorageScheme}
use hyperswitch_card_vault.Storage.Rows.{Bytes, Time, Encryptable}

pub record Vault : Type 0 where
  pub vault_id : Text
  pub entity_id : Text
  pub content : Encryptable
  pub created_at : Time
  pub expires_at : Option Time
  pub updated_by : Option StorageScheme

pub record VaultNew : Type 0 where
  pub vault_id : Text
  pub entity_id : Text
  pub encrypted_data : Bytes
  pub created_at : Time
  pub expires_at : Option Time
  pub updated_by : StorageScheme

pub record VaultUpdate : Type 0 where
  pub encrypted_data : Bytes
  pub expires_at : Option Time
  pub updated_by : StorageScheme

-- From<VaultNew> for VaultUpdate
unfoldable pub update_of_new : VaultNew → VaultUpdate
update_of_new value = record {
  encrypted_data = value.encrypted_data;
  expires_at = value.expires_at;
  updated_by = value.updated_by;
}

pub record VaultInner : Type 0 where
  pub id : ℕ
  pub entity_id : Text
  pub vault_id : Text
  pub encrypted_data : Bytes
  pub created_at : Time
  pub expires_at : Option Time
  pub updated_by : Option StorageScheme

unfoldable pub from_update : VaultUpdate → VaultInner → VaultInner
from_update new current = record {
  id = 0;
  entity_id = current.entity_id;
  vault_id = current.vault_id;
  encrypted_data = new.encrypted_data;
  created_at = current.created_at;
  expires_at = new.expires_at;
  updated_by = some new.updated_by;
}

pub record VaultNewInner : Type 0 where
  pub vault_id : Text
  pub entity_id : Text
  pub encrypted_data : Bytes
  pub created_at : Time
  pub expires_at : Option Time
  pub updated_by : Option StorageScheme

-- From<VaultNew> for VaultNewInner
unfoldable pub new_inner_of_new : VaultNew → VaultNewInner
new_inner_of_new value = record {
  entity_id = value.entity_id;
  vault_id = value.vault_id;
  encrypted_data = value.encrypted_data;
  created_at = value.created_at;
  expires_at = value.expires_at;
  updated_by = some value.updated_by;
}

-- From<VaultNewInner> for VaultInner
unfoldable pub inner_of_new_inner : VaultNewInner → VaultInner
inner_of_new_inner value = record {
  id = 0;
  entity_id = value.entity_id;
  vault_id = value.vault_id;
  encrypted_data = value.encrypted_data;
  created_at = value.created_at;
  expires_at = value.expires_at;
  updated_by = value.updated_by;
}

-- From<VaultInner> for Vault
unfoldable pub vault_of_inner : VaultInner → Vault
vault_of_inner value = record {
  vault_id = value.vault_id;
  entity_id = value.entity_id;
  content = Encryptable.encrypted value.encrypted_data;
  created_at = value.created_at;
  expires_at = value.expires_at;
  updated_by = value.updated_by;
}

unfoldable pub set_updated_by : VaultNewInner → StorageScheme → VaultNewInner
set_updated_by self updated_by = record self { updated_by = some updated_by }

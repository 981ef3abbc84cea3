-- ===== src/Kv/Tests/Lookups.antt =====
-- A secondary key of the vault table, for the runs with a reverse lookup record.
use hyperswitch_card_vault.Common.{Text, codes, ok}
use hyperswitch_card_vault.Error.Types.{VaultDbError}
use hyperswitch_card_vault.Storage.Vaults.{Vault, VaultNewInner, vault_of_inner}
use hyperswitch_card_vault.Kv.Memory.{Memory}
use hyperswitch_card_vault.Kv.Resource.{KvSecondaryLookupResource}
use hyperswitch_card_vault.Kv.Tests.{row}

abbrev pub by_text :
    KvSecondaryLookupResource Memory (Unit {0}) VaultDbError Vault VaultNewInner Text
by_text = record {
  get_lookup_key = λ t. t;
  get_reverse_lookup_key = λ new key. new.vault_id;
  storage_find_by_lookup = λ t w. (ok (vault_of_inner (row (codes "stored"))), w);
}

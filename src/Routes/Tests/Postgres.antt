-- ===== src/Routes/Tests/Postgres.antt =====
-- The vault table on a Postgres with one row, and no Redis.
use hyperswitch_card_vault.Common.{
  ℕ, ◌≡◌, refl, true, false, raised, Text, Option, none, some, codes, Result, ok, err, arith,
}
use hyperswitch_card_vault.Error.Classify.{DieselError}
use hyperswitch_card_vault.Storage.Vaults.{
  VaultUpdate, VaultInner, VaultNewInner, inner_of_new_inner, vault_of_inner,
}
use hyperswitch_card_vault.Storage.World.{Pools}
use hyperswitch_card_vault.Kv.Query.{QueryFragment}
use hyperswitch_card_vault.Kv.Wrapper.{KvStore, Serde}
use hyperswitch_card_vault.Kv.Impls.{Table, DeletableTable, UpdatableTable}
use hyperswitch_card_vault.Kv.Impls.Vaults.{VaultPrimaryKey}
use hyperswitch_card_vault.Routes.Laws.{IsVaultStore, IsManager, HasKey}
use hyperswitch_card_vault.Error.Types.{ApiError}
use hyperswitch_card_vault.Domain.{VaultInterface}
use hyperswitch_card_vault.KeyManager.{KeyProvider, CryptoOperationsManager}
use hyperswitch_card_vault.Routes.Types.{validate_ttl}
use hyperswitch_card_vault.Routes.Data.{Runtime}
use hyperswitch_card_vault.Routes.DataV2.{
  StoreDataRequest, WriteMode, ValueCodec, VaultReference, add_data, retrieve_data,
  store_data_response,
}
use hyperswitch_card_vault.Routes.Postgres.Upsert.{upsert_then_retrieve}
use hyperswitch_card_vault.Routes.Postgres.{
  changed, IsVaultTable, as_vault, postgres_vaults, postgres_vaults-IsVaultStore,
}

abbrev D : Type 0
D = Option VaultInner

abbrev store : KvStore (Unit {0})
store = record {
  redis = none;
  kv_config = record {
    drainer_stream_suffix = codes "stream";
    drainer_num_partitions = 4;
    ttl_for_kv = 900;
  };
  hex_encode = λ bytes. bytes;
  crc32 = λ text. 7;
  query_json = λ query. some query.sql;
  unix_timestamp = λ r. 1000;
}

abbrev pools : Pools D
pools = record { primary_pg_pool = λ d. true; replica_pg_pool = none }

abbrev serde : Serde VaultInner
serde = record { to_json = λ r. none; from_json = λ t. none }

abbrev fragment : QueryFragment
fragment = record { to_sql = none; is_safe_to_cache_prepared = none; collect_binds = none }

-- The database's own number of a row.
abbrev numbered : VaultNewInner → VaultInner
unfolding inner_of_new_inner
numbered new = record (inner_of_new_inner new) { id = 3 }

abbrev insert : VaultNewInner → D → Result DieselError VaultInner × D
insert new none = (ok (numbered new), some (numbered new))
insert new (some row) = (err DieselError.unique_violation, some row)

abbrev select : D → Result DieselError VaultInner × D
select none = (err DieselError.not_found, none)
select (some row) = (ok row, some row)

abbrev update : VaultUpdate → D → Result DieselError VaultInner × D
update new none = (err DieselError.not_found, none)
update new (some row) = (ok (changed row new), some (changed row new))

abbrev table : Table D VaultNewInner VaultInner VaultPrimaryKey
table = record {
  insert = λ pool new. insert new;
  select = λ pool pk. select;
  insert_fragment = λ new. fragment;
}

abbrev updatable : UpdatableTable D VaultUpdate VaultInner VaultPrimaryKey
updatable = record { update = λ pool new pk. update new; update_fragment = λ new pk. fragment }

abbrev deletable : DeletableTable D VaultPrimaryKey
deletable = record { delete = λ pool pk d. (ok 1, none); delete_fragment = λ pk. fragment }

select_lem : (d : D) (row : VaultInner) → d ≡ some row → select d ≡ (ok row, d)
select_lem none row h = absurd cc
select_lem (some r) row h = ground (arith, h)

insert_lem :
    (d : D) (new : VaultNewInner)
    → d ≡ none
    → (id : ℕ) × (d' : D) × (insert new d ≡ (ok (record (inner_of_new_inner new) { id = id }), d'))
      × (d' ≡ some (record (inner_of_new_inner new) { id = id }))
unfolding numbered
insert_lem none new h = (3, some (numbered new), refl, refl)
insert_lem (some r) new h = absurd cc

insert_old_lem :
    (d : D) (new : VaultNewInner) (row : VaultInner)
    → d ≡ some row
    → insert new d ≡ (err DieselError.unique_violation, d)
insert_old_lem none new row h = absurd cc
insert_old_lem (some r) new row h = refl

is_table : IsVaultTable pools table updatable (λ d v e. d)
is_table = record {
  granted = λ d. refl;
  select_row = λ d v e row h. select_lem d row h;
  insert_new = λ d new h. insert_lem d new h;
  insert_old = λ d new row h. insert_old_lem d new row h;
  update_row = λ d v e new row h. rw h (some (changed row new), refl, refl);
}

postgres_vaults-IsVaultStore_example :
    IsVaultStore
      (postgres_vaults store pools serde table updatable deletable tt)
      (λ d v e. as_vault d)
postgres_vaults-IsVaultStore_example =
    postgres_vaults-IsVaultStore store pools serde table updatable deletable tt (λ d v e. d)
      is_table

abbrev manager : CryptoOperationsManager D
manager = record {
  encrypt_data = λ content d. (ok content, d);
  decrypt_data = λ content d. (ok content, d);
}

abbrev keys : KeyProvider D
keys = record {
  find_by_entity_id = λ entity_id d. (ok manager, d);
  find_or_create_entity = λ entity_id d. (ok manager, d);
  create_entity = λ entity_id d. (ok (record { entity_id = entity_id; created_at = 5 }), d);
}

has_key : HasKey keys (codes "e") manager
has_key = record { finds = λ d. refl; finds_or_creates = λ d. refl }

manages : IsManager manager (λ (d : D). as_vault d)
manages = record { seals = λ content d. (content, d, refl, refl, λ v. refl) }

abbrev runtime : Runtime D
runtime = record {
  now = λ d. 10;
  generate_uuid = λ d. codes "uuid";
  generate_nano_id = λ d. codes "nano";
  spawn = λ task d. (task d).1;
  is_whitespace = λ c. false;
}

abbrev codec : ValueCodec Text
codec = record { value_to_vec = some; value_from_slice = some }

abbrev request : StoreDataRequest Text
request = record {
  entity_id = codes "e";
  vault_id = codes "v";
  content = codes "secret";
  ttl = none;
}

abbrev reference : VaultReference
reference = record { entity_id = codes "e"; vault_id = codes "v" }

-- A row that has expired at 7.
abbrev expired_row : VaultInner
expired_row = record {
  id = 3;
  vault_id = codes "v";
  entity_id = codes "e";
  encrypted_data = codes "old";
  created_at = 5;
  expires_at = some 7;
  updated_by = none;
}

abbrev vaults : VaultInterface D
vaults = postgres_vaults store pools serde table updatable deletable tt

-- The upsert names no time to live, and the data are expired at once.
upsert_then_retrieve_example :
    (d' : D) × (add_data runtime codec vaults keys
        (some WriteMode.upsert)
        request
        (some expired_row)
      ≡ (ok reference, d'))
    × (retrieve_data runtime codec vaults keys reference d' ≡ (
      err (raised ApiError.not_found_error),
      (vaults.delete_from_vault (codes "v") (codes "e") d').1,
    ))
unfolding validate_ttl store_data_response vault_of_inner
upsert_then_retrieve_example =
    upsert_then_retrieve store pools serde table updatable deletable tt (λ d v e. d) is_table
      runtime codec keys manager request (some expired_row) (codes "secret") expired_row has_key
      manages refl refl refl refl

-- ===== src/Routes/Postgres/Cards.antt =====
-- The operations of storage/db.rs on the hash table and on the locker table with the key-value layer
-- disabled, on a Postgres with connections.
use hyperswitch_card_vault.Common.{
  ℕ, ◌≡◌, ◌∙◌, refl, ap, true, Option, none, some, Text, ok, err, ok_or, arith,
}
use hyperswitch_card_vault.Error.Types.{VaultDbError}
use hyperswitch_card_vault.Error.Classify.{DieselError}
use hyperswitch_card_vault.Error.Types.{ReverseLookupDbError}
use hyperswitch_card_vault.Storage.Scheme.{StorageScheme}
use hyperswitch_card_vault.Storage.Rows.{
  Bytes, Time, HashTable, HashTableNew, hash_table_of_new, Locker, LockerNew, LockerInner,
  locker_inner_of_new, locker_of_inner, ReverseLookup, ReverseLookupNew,
}
use hyperswitch_card_vault.Storage.World.{World, Pools, DbPool, kv_settings}
use hyperswitch_card_vault.Kv.Wrapper.{Serde, KvStore}
use hyperswitch_card_vault.Common.{Exec}
use hyperswitch_card_vault.Kv.Resource.{scheme_for_insert, scheme_for_find}
use hyperswitch_card_vault.Kv.Resource.Insert.{
  insert_resource, insert_resource_inner, insert_under, insert_resource_with_reverse_lookup,
}
use hyperswitch_card_vault.Kv.Resource.Find.{
  find_optional_resource_by_id, find_resource_by_id, find_resource_by_id_inner, find_under,
  optional, find_optional_resource_by_lookup_id, find_resource_by_lookup_id, find_by_lookup_under,
}
use hyperswitch_card_vault.Kv.Impls.{Table, DeletableTable}
use hyperswitch_card_vault.Kv.Impls.Hashes.{find_optional_by_data_hash, insert_hash}
use hyperswitch_card_vault.Kv.Impls.Lockers.{
  LockerPrimaryKeyType, LockerHashLookupKey, insert_locker, delete_locker,
  find_by_locker_id_merchant_id_customer_id, find_optional_by_hash_id_merchant_id_customer_id,
}
use hyperswitch_card_vault.Domain.{HashInterface, LockerInterface}
use hyperswitch_card_vault.Routes.Laws.{Cards, IsCardStore, locker_row}
use hyperswitch_card_vault.Routes.Postgres.{on_postgres, primary, routed}

abbrev locker_key : Text → Text → Text → LockerPrimaryKeyType
locker_key l m c = record { locker_id = l; merchant_id = m; customer_id = c }

abbrev hash_key : Text → Text → Text → LockerHashLookupKey
hash_key h m c = record { hash_id = h; merchant_id = m; customer_id = c }

-- The two tables, by the columns that their unique indexes are on.
pub record CardTables : Type 0 where
  pub hash_rows : Bytes → Option HashTable
  pub rows : Text → Text → Text → Option LockerInner
  pub hashed : Text → Text → Text → Option LockerInner

-- A database that grants connections, and its two tables in a state. The insert of a locker row fails
-- where the key has a row already.
pub record IsCardTables {D : Type 0} (pools : Pools D)
    (hashes : Table D HashTableNew HashTable Bytes)
    (lockers : Table D LockerNew LockerInner LockerPrimaryKeyType)
    (select_by_hash : DbPool → LockerHashLookupKey → Exec D DieselError LockerInner)
    (tables : D → CardTables) : Type 0 where
  pub granted : (d : D) → pools.primary_pg_pool d ≡ true
  pub select_hash :
      (d : D) (h : Bytes)
      → hashes.select DbPool.primary h d ≡ (ok_or DieselError.not_found ((tables d).hash_rows h), d)
  pub insert_hash_new :
      (d : D) (new : HashTableNew)
      → (tables d).hash_rows new.data_hash ≡ none
      → (id : ℕ) × (d' : D) × (hashes.insert DbPool.primary new d
          ≡ (ok (record (hash_table_of_new new) { id = id }), d'))
        × ((tables d').hash_rows new.data_hash ≡ some (record (hash_table_of_new new) { id = id }))
        × ((tables d').rows ≡ (tables d).rows)
        × ((tables d').hashed ≡ (tables d).hashed)
  pub select_row :
      (d : D) (l m c : Text) (row : LockerInner)
      → (tables d).rows l m c ≡ some row
      → lockers.select DbPool.primary (locker_key l m c) d ≡ (ok row, d)
  pub select_hashed :
      (d : D) (h m c : Text)
      → select_by_hash DbPool.primary (hash_key h m c) d
        ≡ (ok_or DieselError.not_found ((tables d).hashed h m c), d)
  pub insert_new :
      (d : D) (new : LockerNew)
      → (tables d).rows new.locker_id new.merchant_id new.customer_id ≡ none
      → (tables d).hashed new.hash_id new.merchant_id new.customer_id ≡ none
      → let inserted : ℕ → LockerInner = λ id. record (locker_inner_of_new new) { id = id } in
        (id : ℕ) × (d' : D) × (lockers.insert DbPool.primary new d ≡ (ok (inserted id), d'))
        × ((tables d').rows new.locker_id new.merchant_id new.customer_id ≡ some (inserted id))
        × ((tables d').hashed new.hash_id new.merchant_id new.customer_id ≡ some (inserted id))
        × ((tables d').hash_rows ≡ (tables d).hash_rows)
  pub insert_old :
      (d : D) (new : LockerNew) (row : LockerInner)
      → (tables d).rows new.locker_id new.merchant_id new.customer_id ≡ some row
      → lockers.insert DbPool.primary new d ≡ (err DieselError.unique_violation, d)

abbrev pub as_locker : Option LockerInner → Option Locker
as_locker none = none
as_locker (some inner) = some (locker_of_inner inner)

as_locker-some :
    (o : Option LockerInner) (row : Locker)
    → as_locker o ≡ some row
    → (inner : LockerInner) × (o ≡ some inner) × (locker_of_inner inner ≡ row)
as_locker-some none row h = absurd cc
as_locker-some (some inner) row h = (inner, refl, ground (arith, h))

as_locker-none : (o : Option LockerInner) → as_locker o ≡ none → o ≡ none
as_locker-none none h = refl
as_locker-none (some inner) h = absurd cc

abbrev pub as_cards : CardTables → Cards
as_cards t = record {
  hash_rows = t.hash_rows;
  rows = λ l m c. as_locker (t.rows l m c);
  hashed = λ h m c. as_locker (t.hashed h m c);
}

module _ {R D : Type 0} (store : KvStore R) (pools : Pools D) (redis : R) where
  module _ (serde : Serde HashTable) (table : Table D HashTableNew HashTable Bytes)
      (generate_uuid : D → Text) (now : D → Time) where
    abbrev pub postgres_hashes : HashInterface D
    postgres_hashes = record {
      find_optional_by_data_hash =
          λ h. on_postgres redis (find_optional_by_data_hash store pools serde table h);
      insert_hash = λ h d.
          on_postgres redis (insert_hash store pools serde table (generate_uuid d) (now d) h) d;
    }

  module _ (serde : Serde LockerInner) (table : Table D LockerNew LockerInner LockerPrimaryKeyType)
      (select_by_hash : DbPool → LockerHashLookupKey → Exec D DieselError LockerInner)
      (deletable : DeletableTable D LockerPrimaryKeyType)
      (insert_reverse_lookup : ReverseLookupNew
        → Exec (World R D) ReverseLookupDbError ReverseLookup)
      (find_by_lookup_id : Text → Exec (World R D) ReverseLookupDbError ReverseLookup)
      (delete_reverse_lookup : Text → Exec (World R D) ReverseLookupDbError ℕ) where
    abbrev pub postgres_lockers : LockerInterface D
    postgres_lockers = record {
      insert_locker = λ new.
          on_postgres redis
            (insert_locker store pools serde table select_by_hash insert_reverse_lookup new);
      find_by_locker_id_merchant_id_customer_id = λ l m c.
          on_postgres redis
            (find_by_locker_id_merchant_id_customer_id store pools serde table l m c);
      find_optional_by_hash_id_merchant_id_customer_id = λ h m c. on_postgres redis (
          find_optional_by_hash_id_merchant_id_customer_id store pools serde table select_by_hash
            find_by_lookup_id h m c);
      delete_locker = λ l m c.
          on_postgres redis
            (delete_locker store pools serde table deletable delete_reverse_lookup l m c);
    }

-- The hash table, then the locker table.
module _ {R D : Type 0} (store : KvStore R) (pools : Pools D) (redis : R)
    (hash_serde : Serde HashTable) (hash_table : Table D HashTableNew HashTable Bytes)
    (generate_uuid : D → Text) (now : D → Time) (serde : Serde LockerInner)
    (table : Table D LockerNew LockerInner LockerPrimaryKeyType)
    (select_by_hash : DbPool → LockerHashLookupKey → Exec D DieselError LockerInner)
    (deletable : DeletableTable D LockerPrimaryKeyType)
    (insert_reverse_lookup : ReverseLookupNew → Exec (World R D) ReverseLookupDbError ReverseLookup)
    (find_by_lookup_id : Text → Exec (World R D) ReverseLookupDbError ReverseLookup)
    (delete_reverse_lookup : Text → Exec (World R D) ReverseLookupDbError ℕ)
    (tables : D → CardTables)
    (is_tables : IsCardTables pools hash_table table select_by_hash tables)
    (fresh : (d : D) (m c : Text) → (tables d).hashed (generate_uuid d) m c ≡ none) where
  abbrev hashes : HashInterface D
  hashes = postgres_hashes store pools redis hash_serde hash_table generate_uuid now

  abbrev lockers : LockerInterface D
  lockers =
      postgres_lockers store pools redis serde table select_by_hash deletable insert_reverse_lookup
        find_by_lookup_id delete_reverse_lookup

  abbrev cards : D → Cards
  cards d = as_cards (tables d)

  find_hash_lem :
      (d : D) (h : Bytes) (o : Option HashTable)
      → (tables d).hash_rows h ≡ o
      → hashes.find_optional_by_data_hash h d ≡ (ok o, d)
  unfolding find_optional_by_data_hash find_optional_resource_by_id find_resource_by_id
      find_resource_by_id_inner find_under optional scheme_for_find kv_settings
  find_hash_lem d h none same =
      simp (routed redis pools is_tables.granted d, is_tables.select_hash d h, same)
  find_hash_lem d h (some t) same =
      simp (routed redis pools is_tables.granted d, is_tables.select_hash d h, same)

  insert_hash_lem :
      (d : D) (h : Bytes)
      → (cards d).hash_rows h ≡ none
      → (t : HashTable) × (d' : D) × (hashes.insert_hash h d ≡ (ok t, d'))
        × ((cards d').hash_rows h ≡ some t)
        × ((cards d').rows ≡ (cards d).rows)
        × ((m c : Text) → (cards d').hashed t.hash_id m c ≡ none)
  unfolding insert_hash insert_resource insert_resource_inner insert_under scheme_for_insert
      kv_settings hash_table_of_new
  insert_hash_lem d h none_yet =
      let new : HashTableNew = record {
        hash_id = generate_uuid d;
        data_hash = h;
        created_at = now d;
        updated_by = some StorageScheme.postgres_only;
      } in
      let (id, d', wrote, there, rows, hashed) = is_tables.insert_hash_new d new none_yet in
      (
        record (hash_table_of_new new) { id = id },
        d',
        simp (primary redis pools is_tables.granted d, wrote),
        there,
        ap (λ f l m c. as_locker (f l m c)) rows,
        λ m c. ap (λ f. as_locker (f (generate_uuid d) m c)) hashed ∙ ap as_locker (fresh d m c),
      )

  find_row_lem :
      (d : D) (l m c : Text) (row : Locker)
      → (cards d).rows l m c ≡ some row
      → lockers.find_by_locker_id_merchant_id_customer_id l m c d ≡ (ok row, d)
  unfolding find_by_locker_id_merchant_id_customer_id find_resource_by_id find_resource_by_id_inner
      find_under scheme_for_find kv_settings
  find_row_lem d l m c row h =
      let (inner, there, same) = as_locker-some ((tables d).rows l m c) row h in
      simp (routed redis pools is_tables.granted d, is_tables.select_row d l m c inner there, same)

  find_hashed_lem :
      (d : D) (h m c : Text) (o : Option LockerInner)
      → (tables d).hashed h m c ≡ o
      → lockers.find_optional_by_hash_id_merchant_id_customer_id h m c d ≡ (ok (as_locker o), d)
  unfolding find_optional_by_hash_id_merchant_id_customer_id find_optional_resource_by_lookup_id
      find_resource_by_lookup_id find_by_lookup_under optional scheme_for_find kv_settings
  find_hashed_lem d h m c none same =
      simp (routed redis pools is_tables.granted d, is_tables.select_hashed d h m c, same)
  find_hashed_lem d h m c (some row) same =
      simp (routed redis pools is_tables.granted d, is_tables.select_hashed d h m c, same)

  -- The row that goes to the table.
  abbrev stamped : LockerNew → LockerNew
  stamped new = record new { updated_by = some StorageScheme.postgres_only }

  insert_new_lem :
      (d : D) (new : LockerNew)
      → (cards d).rows new.locker_id new.merchant_id new.customer_id ≡ none
      → (cards d).hashed new.hash_id new.merchant_id new.customer_id ≡ none
      → (scheme : StorageScheme) × (d' : D) × (lockers.insert_locker new d
          ≡ (ok (locker_row scheme new), d'))
        × ((cards d').rows new.locker_id new.merchant_id new.customer_id
            ≡ some (locker_row scheme new))
        × ((cards d').hashed new.hash_id new.merchant_id new.customer_id
            ≡ some (locker_row scheme new))
        × ((cards d').hash_rows ≡ (cards d).hash_rows)
  unfolding insert_locker insert_resource_with_reverse_lookup insert_resource_inner insert_under
      scheme_for_insert kv_settings locker_inner_of_new locker_of_inner
  insert_new_lem d new no_row no_hashed =
      let (id, d', wrote, there, mine, hash_rows) =
        is_tables.insert_new d (stamped new)
          (as_locker-none ((tables d).rows new.locker_id new.merchant_id new.customer_id) no_row)
          (as_locker-none ((tables d).hashed new.hash_id new.merchant_id new.customer_id)
            no_hashed) in
      (
        StorageScheme.postgres_only,
        d',
        simp (primary redis pools is_tables.granted d, wrote),
        ap as_locker there,
        ap as_locker mine,
        hash_rows,
      )

  insert_old_lem :
      (d : D) (new : LockerNew) (row : Locker)
      → (cards d).rows new.locker_id new.merchant_id new.customer_id ≡ some row
      → lockers.insert_locker new d ≡ (err VaultDbError.duplicate, d)
  unfolding insert_locker insert_resource_with_reverse_lookup insert_resource_inner insert_under
      scheme_for_insert kv_settings
  insert_old_lem d new row h =
      let (inner, there, same) =
        as_locker-some ((tables d).rows new.locker_id new.merchant_id new.customer_id) row h in
      simp
        (primary redis pools is_tables.granted d, is_tables.insert_old d (stamped new) inner there)

  pub postgres_cards-IsCardStore : IsCardStore hashes lockers cards
  postgres_cards-IsCardStore = record {
    find_hash = λ d h. find_hash_lem d h ((tables d).hash_rows h) refl;
    insert_hash = insert_hash_lem;
    find_row = find_row_lem;
    find_hashed = λ d h m c. find_hashed_lem d h m c ((tables d).hashed h m c) refl;
    insert_new = insert_new_lem;
    insert_old = λ d new row h. (d, insert_old_lem d new row h, refl);
  }

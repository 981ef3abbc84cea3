-- ===== src/Routes/Tests/Cards.antt =====
-- The routes of version 1 on a Postgres whose hash table and locker table have room for one row.
use hyperswitch_card_vault.Common.{
  ℕ, ◌≡◌, refl, [], ◌∷◌, true, false, Option, none, some, Text, codes, Result, ok, err, ok_or, ◌==◌,
  length, if◌then◌else◌, same_text, arith,
}
use hyperswitch_card_vault.Error.Classify.{DieselError}
use hyperswitch_card_vault.Error.Types.{FingerprintDbError, ReverseLookupDbError}
use hyperswitch_card_vault.Storage.Rows.{
  Bytes, Time, Locker, HashTable, HashTableNew, hash_table_of_new, LockerNew, LockerInner,
  locker_inner_of_new, locker_of_inner,
}
use hyperswitch_card_vault.Storage.World.{Pools}
use hyperswitch_card_vault.Kv.Query.{QueryFragment}
use hyperswitch_card_vault.Kv.Wrapper.{KvStore, Serde}
use hyperswitch_card_vault.Kv.Impls.{Table, DeletableTable}
use hyperswitch_card_vault.Kv.Impls.Lockers.{LockerPrimaryKeyType}
use hyperswitch_card_vault.Domain.{HashInterface, LockerInterface}
use hyperswitch_card_vault.KeyManager.{KeyProvider, CryptoOperationsManager}
use hyperswitch_card_vault.Routes.Types.{
  StoreCardRequest, RetrieveCardRequest, RequestData, StoredData, DataDuplicationCheck, Status,
  validate_store,
}
use hyperswitch_card_vault.Routes.Transformers.{Codec, get_hash, same_data, retrieved}
use hyperswitch_card_vault.Routes.Data.{
  Runtime, TenantState, stored_of_request, add_card, retrieve_card,
}
use hyperswitch_card_vault.Routes.Laws.{IsManager, HasKey, Cards, IsCardStore}
use hyperswitch_card_vault.Routes.Postgres.Cards.{
  CardTables, IsCardTables, as_cards, postgres_hashes, postgres_lockers, postgres_cards-IsCardStore,
}
use hyperswitch_card_vault.Routes.RoundTrip.V1.{
  add_then_retrieve_card, add_again, add_reused_reference,
}

-- The two rows.
abbrev D : Type 0
D = Option HashTable × Option LockerInner

abbrev store : KvStore (Unit {0})
store = record {
  redis = none;
  kv_config = record {
    drainer_stream_suffix = codes "stream";
    drainer_num_partitions = 4;
    ttl_for_kv = 900;
  };
  hex_encode = λ bytes. bytes;
  crc32 = λ text. 7;
  query_json = λ query. some query.sql;
  unix_timestamp = λ r. 1000;
}

abbrev pools : Pools D
pools = record { primary_pg_pool = λ d. true; replica_pg_pool = none }

abbrev serde : {A : Type 0} → Serde A
serde = record { to_json = λ r. none; from_json = λ t. none }

abbrev fragment : QueryFragment
fragment = record { to_sql = none; is_safe_to_cache_prepared = none; collect_binds = none }

-- The database's own numbers of the rows.
abbrev new_hash : HashTableNew → HashTable
unfolding hash_table_of_new
new_hash new = record (hash_table_of_new new) { id = 3 }

abbrev new_locker : LockerNew → LockerInner
unfolding locker_inner_of_new
new_locker new = record (locker_inner_of_new new) { id = 4 }

abbrev put_hash : HashTableNew → D → Result DieselError HashTable × D
put_hash new (none, l) = (ok (new_hash new), (some (new_hash new), l))
put_hash new (some t, l) = (err DieselError.unique_violation, (some t, l))

abbrev put_locker : LockerNew → D → Result DieselError LockerInner × D
put_locker new (t, none) = (ok (new_locker new), (t, some (new_locker new)))
put_locker new (t, some row) = (err DieselError.unique_violation, (t, some row))

-- The row where its hash has the length of the one looked for.
abbrev by_hash : Text → Option LockerInner → Option LockerInner
by_hash h none = none
by_hash h (some row) = if length h == length row.hash_id then some row else none

abbrev hashes : Table D HashTableNew HashTable Bytes
hashes = record {
  insert = λ pool. put_hash;
  select = λ pool h d. (ok_or DieselError.not_found d.0, d);
  insert_fragment = λ new. fragment;
}

abbrev lockers : Table D LockerNew LockerInner LockerPrimaryKeyType
lockers = record {
  insert = λ pool. put_locker;
  select = λ pool pk d. (ok_or DieselError.not_found d.1, d);
  insert_fragment = λ new. fragment;
}

abbrev deletable : DeletableTable D LockerPrimaryKeyType
deletable = record { delete = λ pool pk d. (ok 1, (d.0, none)); delete_fragment = λ pk. fragment }

abbrev tables : D → CardTables
tables d = record { hash_rows = λ h. d.0; rows = λ l m c. d.1; hashed = λ h m c. by_hash h d.1 }

-- An identifier that is longer than that of the row.
abbrev longer : Option LockerInner → Text
longer none = codes "h"
longer (some row) = 0 ∷ row.hash_id

fresh : (o : Option LockerInner) → by_hash (longer o) o ≡ none
fresh none = refl
fresh (some row) = ground arith

insert_hash_lem :
    (d : D) (new : HashTableNew)
    → d.0 ≡ none
    → (id : ℕ) × (d' : D) × (put_hash new d ≡ (ok (record (hash_table_of_new new) { id = id }), d'))
      × (d'.0 ≡ some (record (hash_table_of_new new) { id = id }))
      × ((tables d').rows ≡ (tables d).rows)
      × ((tables d').hashed ≡ (tables d).hashed)
unfolding new_hash
insert_hash_lem (none, l) new h = (3, (some (new_hash new), l), refl, refl, refl, refl)
insert_hash_lem (some t, l) new h = absurd cc

insert_new_lem :
    (d : D) (new : LockerNew)
    → d.1 ≡ none
    → (id : ℕ) × (d' : D) × (put_locker new d
        ≡ (ok (record (locker_inner_of_new new) { id = id }), d'))
      × (d'.1 ≡ some (record (locker_inner_of_new new) { id = id }))
      × (by_hash new.hash_id d'.1 ≡ some (record (locker_inner_of_new new) { id = id }))
      × ((tables d').hash_rows ≡ (tables d).hash_rows)
unfolding new_locker
insert_new_lem (t, none) new h = (4, (t, some (new_locker new)), refl, refl, ground arith, refl)
insert_new_lem (t, some row) new h = absurd cc

insert_old_lem :
    (d : D) (new : LockerNew) (row : LockerInner)
    → d.1 ≡ some row
    → put_locker new d ≡ (err DieselError.unique_violation, d)
insert_old_lem (t, none) new row h = absurd cc
insert_old_lem (t, some r) new row h = refl

is_tables :
    IsCardTables pools hashes lockers
      (λ pool key d. (ok_or DieselError.not_found (by_hash key.hash_id d.1), d))
      tables
is_tables = record {
  granted = λ d. refl;
  select_hash = λ d h. refl;
  insert_hash_new = λ d new h. insert_hash_lem d new h;
  select_row = λ d l m c row h. simp h;
  select_hashed = λ d h m c. refl;
  insert_new = λ d new h k. insert_new_lem d new h;
  insert_old = λ d new row h. insert_old_lem d new row h;
}

-- The operations of the program on the two tables; the reverse lookup table is not reached.
abbrev card_hashes : HashInterface D
card_hashes = postgres_hashes store pools tt serde hashes (λ d. longer d.1) (λ d. 10)

abbrev card_lockers : LockerInterface D
card_lockers =
    postgres_lockers store pools tt serde lockers
      (λ pool key d. (ok_or DieselError.not_found (by_hash key.hash_id d.1), d)) deletable
      (λ new w. (err ReverseLookupDbError.db_error, w))
      (λ id w. (err ReverseLookupDbError.db_error, w))
      (λ id w. (err ReverseLookupDbError.db_error, w))

abbrev cards : D → Cards
cards d = as_cards (tables d)

card_store : IsCardStore card_hashes card_lockers cards
card_store =
    postgres_cards-IsCardStore store pools tt serde hashes (λ d. longer d.1) (λ d. 10) serde lockers
      (λ pool key d. (ok_or DieselError.not_found (by_hash key.hash_id d.1), d)) deletable
      (λ new w. (err ReverseLookupDbError.db_error, w))
      (λ id w. (err ReverseLookupDbError.db_error, w))
      (λ id w. (err ReverseLookupDbError.db_error, w)) tables is_tables (λ d m c. fresh d.1)

abbrev manager : CryptoOperationsManager D
manager = record {
  encrypt_data = λ content d. (ok content, d);
  decrypt_data = λ content d. (ok content, d);
}

abbrev keys : KeyProvider D
keys = record {
  find_by_entity_id = λ entity_id d. (ok manager, d);
  find_or_create_entity = λ entity_id d. (ok manager, d);
  create_entity = λ entity_id d. (ok (record { entity_id = entity_id; created_at = 5 }), d);
}

has_key : HasKey keys (codes "m") manager
has_key = record { finds = λ d. refl; finds_or_creates = λ d. refl }

manages : IsManager manager cards
manages = record { seals = λ content d. (content, d, refl, refl, λ v. refl) }

abbrev state : TenantState D
state = record {
  hashes = card_hashes;
  lockers = card_lockers;
  fingerprints = record {
    find_optional_by_fingerprint_hash = λ h d. (ok none, d);
    insert_fingerprint = λ h id d. (err FingerprintDbError.db_error, d);
  };
  keys = keys;
}

abbrev runtime : Runtime D
runtime = record {
  now = λ d. 10;
  generate_uuid = λ d. codes "uuid";
  generate_nano_id = λ d. codes "nano";
  spawn = λ task d. (task d).1;
  is_whitespace = λ c. false;
}

-- The hash of a text is its length.
abbrev codec : Codec
codec = record {
  text_to_vec = some;
  stored_to_vec = elim [ StoredData.enc_data t ↦ some t | StoredData.card_data c ↦ none ];
  stored_from_slice = λ b. some (StoredData.enc_data b);
  sha512 = λ b. length b ∷ [];
}

abbrev request : Text → Text → Option Time → StoreCardRequest
request reference content ttl = record {
  merchant_id = codes "m";
  merchant_customer_id = codes "c";
  requestor_card_reference = some reference;
  content = RequestData.enc_data content;
  ttl = ttl;
}

abbrev reference : RetrieveCardRequest
reference = record {
  merchant_id = codes "m";
  merchant_customer_id = codes "c";
  card_reference = codes "r";
}

-- Stored at 10 with a time to live until 20, and read at 10.
add_then_retrieve_card_example :
    (w' : D) × (add_card runtime codec state
        (request (codes "r") (codes "secret") (some 20))
        (none, none)
      ≡ (
        ok (record {
          status = Status.ok;
          payload = some (record { card_reference = codes "r"; duplication_check = none });
        }),
        w',
      ))
    × (retrieve_card runtime codec state reference w'
        ≡ (ok (retrieved (StoredData.enc_data (codes "secret"))), w'))
unfolding validate_store get_hash stored_of_request
add_then_retrieve_card_example =
    add_then_retrieve_card runtime codec state cards card_store manager
      (request (codes "r") (codes "secret") (some 20)) (codes "r") (none, none) (6 ∷ [])
      (codes "secret") has_key manages refl refl refl refl refl refl refl

-- The second request has another reference, and other data of the same hash.
add_again_example :
    (w' : D) × (add_card runtime codec state
        (request (codes "r") (codes "secret") none)
        (none, none)
      ≡ (
        ok (record {
          status = Status.ok;
          payload = some (record { card_reference = codes "r"; duplication_check = none });
        }),
        w',
      ))
    × (add_card runtime codec state (request (codes "s") (codes "Secret") none) w' ≡ (
      ok (record {
        status = Status.ok;
        payload = some (record {
          card_reference = codes "r";
          duplication_check = some DataDuplicationCheck.meta_data_changed;
        });
      }),
      w',
    ))
unfolding validate_store get_hash stored_of_request same_data same_text
add_again_example =
    add_again runtime codec state cards card_store manager
      (request (codes "r") (codes "secret") none) (codes "r") (none, none) (6 ∷ []) (codes "secret")
      has_key manages refl refl refl refl refl (request (codes "s") (codes "Secret") none) refl refl
      (λ u. refl) refl refl refl

abbrev old_row : LockerInner
old_row = record {
  id = 1;
  locker_id = codes "r";
  merchant_id = codes "m";
  customer_id = codes "c";
  enc_data = codes "old";
  created_at = 5;
  hash_id = codes "h";
  ttl = none;
  updated_by = none;
}

abbrev old_locker : Locker
unfolding locker_of_inner
old_locker = locker_of_inner old_row

-- The reference is that of an old row, which stays.
add_reused_reference_example :
    (w' : D) × (add_card runtime codec state
        (request (codes "r") (codes "secret") none)
        (none, some old_row)
      ≡ (
        ok (record {
          status = Status.ok;
          payload = some (record { card_reference = codes "r"; duplication_check = none });
        }),
        w',
      ))
    × (card_lockers.find_by_locker_id_merchant_id_customer_id (codes "r") (codes "m") (codes "c") w'
        ≡ (ok old_locker, w'))
unfolding validate_store get_hash stored_of_request locker_of_inner
add_reused_reference_example =
    add_reused_reference runtime codec state cards card_store manager
      (request (codes "r") (codes "secret") none) (codes "r") (none, some old_row) (6 ∷ [])
      (codes "secret") has_key manages refl refl refl refl refl old_locker refl refl

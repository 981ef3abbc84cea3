-- ===== src/KeyManager/Tests.antt =====
-- Runs of the key managers on stores of one merchant, or of one entity.
use hyperswitch_card_vault.Common.{
  ◌≡◌, ◌↔◌, refl, [], ◌∷◌, Option, none, some, Text, codes, Result, ok, err, Fault, raised, arith,
}
use hyperswitch_card_vault.Error.Types.{ApiError, MerchantDbError, EntityDbError}
use hyperswitch_card_vault.Storage.Rows.{Bytes, Merchant, Entity}
use hyperswitch_card_vault.Storage.Merchants.{MerchantNew}
use hyperswitch_card_vault.KeyManager.{get_url, ExternalKeyManagerConfig, get_url_required}
use hyperswitch_card_vault.KeyManager.Internal.{
  MerchantInterface, or_missing, create, find_or_create,
}
use hyperswitch_card_vault.KeyManager.Internal.Laws.{IsMerchantStore, find_or_create-new}
use hyperswitch_card_vault.ApiClient.{send_request, checked, construct_header_map}
use hyperswitch_card_vault.KeyManager.External.Statuses.{create_key_status}
use hyperswitch_card_vault.Error.Remote.{KeyManagerError}
use hyperswitch_card_vault.KeyManager.External.{
  get_key_manager_header, DataKeyCreateResponse, DataKeyCreateRequest, Service, EntityInterface,
  Identifier, create_key_in_key_manager, call_encryption_service, get_identifier,
  external_key_manager,
}
use hyperswitch_card_vault.KeyManager.External
use hyperswitch_card_vault.KeyManager.External.Laws.{IsEntityStore, MakesKeys, create_entity_raced}

abbrev W : Type 0
W = Option Merchant

abbrev row : MerchantNew → Merchant
row new = record { merchant_id = new.merchant_id; enc_key = new.enc_key; created_at = 5 }

abbrev insert : W → MerchantNew → Result (Fault MerchantDbError) Merchant × W
insert none new = (ok (row new), some (row new))
insert (some m) new = (err (raised MerchantDbError.duplicate), some m)

abbrev find : W → Result (Fault MerchantDbError) Merchant × W
find none = (err (raised MerchantDbError.not_found_error), none)
find (some m) = (ok m, some m)

abbrev merchants : MerchantInterface W
merchants = record {
  find_by_merchant_id = λ id key w. find w;
  insert_merchant = λ new key w. insert w new;
  find_all_keys_excluding_entity_keys = λ key limit w. (ok [], w);
}

abbrev rows : W → Text → Option Merchant
rows w id = w

find_row_lem : (w : W) (m : Merchant) → w ≡ some m → find w ≡ (ok m, w)
find_row_lem none m h = absurd cc
find_row_lem (some n) m h = ground arith

find_missing_lem : (w : W) → w ≡ none → find w ≡ (err (raised MerchantDbError.not_found_error), w)
find_missing_lem none h = refl
find_missing_lem (some m) h = absurd cc

insert_new_lem :
    (w : W) (new : MerchantNew)
    → w ≡ none
    → (m : Merchant) × (w' : W) × (insert w new ≡ (ok m, w'))
      × (w' ≡ some m)
      × (m.enc_key ≡ new.enc_key)
insert_new_lem none new h = (row new, some (row new), refl, refl, refl)
insert_new_lem (some m) new h = absurd cc

insert_old_lem :
    (w : W) (new : MerchantNew) (m : Merchant)
    → w ≡ some m
    → insert w new ≡ (err (raised MerchantDbError.duplicate), w)
insert_old_lem none new m h = absurd cc
insert_old_lem (some n) new m h = refl

abbrev master_key : Bytes
master_key = 1 ∷ 2 ∷ []

store : IsMerchantStore merchants master_key rows
store = record {
  find_row = λ w id m h. find_row_lem w m h;
  find_missing = λ w id h. find_missing_lem w h;
  insert_new = λ w new h. insert_new_lem w new h;
  insert_old = λ w new m h. insert_old_lem w new m h;
}

abbrev generated : W → Bytes
generated w = 7 ∷ []

find_or_create-new_example :
    (m : Merchant) × (w' : W) × (find_or_create merchants generated (codes "m") master_key none
      ≡ (ok m, w'))
    × (m.enc_key ≡ 7 ∷ [])
    × (find_or_create merchants generated (codes "m") master_key w' ≡ (ok m, w'))
    × (or_missing
          (create merchants generated (codes "m") master_key)
          (err (raised MerchantDbError.not_found_error))
          w'
        ≡ (ok m, w'))
find_or_create-new_example =
    find_or_create-new merchants generated master_key rows store (codes "m") none refl

-- A key manager that makes the key `k`, on an entity table of one row.
abbrev EntityRow : Type 0
EntityRow = Option Entity

abbrev service : Service EntityRow Text
service = record {
  tenant_id = codes "t";
  master_key = master_key;
  external_key_manager = ExternalKeyManagerConfig.enabled (codes "http://k");
  hex_encode = λ b. b;
  base64_encode = λ b. b;
  api_client = record {
    parse_url = some;
    parse_header_name = some;
    parse_header_value = some;
    send = λ method url headers body w. (some (codes "k"), w);
    status = λ response. 200;
    bytes = λ response. some response;
  };
  read_key = λ b. some (record { identifier = Identifier.entity b; key_version = codes "v1" });
  read_encrypted = λ b. some b;
  read_decrypted = λ b. some b;
}

abbrev entity_row : Text → Text → Entity
entity_row id key = record { id = 1; entity_id = id; enc_key_id = key; created_at = 5 }

abbrev insert_entity : Text → Text → EntityRow → Result EntityDbError Entity × EntityRow
insert_entity id key none = (ok (entity_row id key), some (entity_row id key))
insert_entity id key (some e) = (err EntityDbError.duplicate, some e)

abbrev find_entity : EntityRow → Result EntityDbError Entity × EntityRow
find_entity none = (err EntityDbError.not_found_error, none)
find_entity (some e) = (ok e, some e)

abbrev entities : EntityInterface EntityRow
entities = record {
  find_by_entity_id = λ id w. find_entity w;
  insert_entity = λ id key w. insert_entity id key w;
}

find_entity_lem : (w : EntityRow) (e : Entity) → w ≡ some e → find_entity w ≡ (ok e, w)
find_entity_lem none e h = absurd cc
find_entity_lem (some f) e h = ground (arith, h)

missing_entity_lem :
    (w : EntityRow) → w ≡ none → find_entity w ≡ (err EntityDbError.not_found_error, w)
missing_entity_lem none h = refl
missing_entity_lem (some e) h = absurd cc

insert_entity-new :
    (w : EntityRow) (id key : Text)
    → w ≡ none
    → (row : Entity) × (w' : EntityRow) × (insert_entity id key w ≡ (ok row, w'))
      × (w' ≡ some row)
      × (row.entity_id ≡ id)
      × (row.enc_key_id ≡ key)
insert_entity-new none id key h =
    (entity_row id key, some (entity_row id key), refl, refl, refl, refl)
insert_entity-new (some e) id key h = absurd cc

insert_entity-old :
    (w : EntityRow) (id key : Text) (e : Entity)
    → w ≡ some e
    → insert_entity id key w ≡ (err EntityDbError.duplicate, w)
insert_entity-old none id key e h = absurd cc
insert_entity-old (some f) id key e h = refl

entity_store : IsEntityStore entities (λ w id. w)
entity_store = record {
  find_row = λ w id e h. find_entity_lem w e h;
  find_missing = λ w id h. missing_entity_lem w h;
  insert_new = λ w id key h. insert_entity-new w id key h;
  insert_old = λ w id key e h. insert_entity-old w id key e h;
}

-- The key that the service makes is its answer's, whatever the identifier.
abbrev made_key : DataKeyCreateResponse
made_key = record { identifier = Identifier.entity (codes "k"); key_version = codes "v1" }

makes_keys : MakesKeys service (λ w id. w)
unfolding create_key_in_key_manager call_encryption_service get_url_required send_request checked
    construct_header_map get_key_manager_header
makes_keys = record { makes = λ identifier w. (made_key, w, refl, λ id. refl) }

create_entity_raced_example :
    let manager = external_key_manager service entities (λ w. codes "n") in
    (row : Entity) × (w' : EntityRow) × (w'' : EntityRow) × (manager.create_entity (codes "e") none
      ≡ (ok (record { entity_id = codes "e"; created_at = row.created_at }), w'))
    × (w' ≡ some row)
    × (manager.create_entity (codes "e") w'
        ≡ (ok (record { entity_id = codes "e"; created_at = row.created_at }), w'))
    × (External.or_missing service entities
          (λ w. codes "n")
          (codes "e")
          (err EntityDbError.not_found_error)
          w'
        ≡ (err (ApiError.database_insert_failed "entity"), w''))
    × (w'' ≡ some row)
create_entity_raced_example =
    create_entity_raced service entities (λ w. codes "n") (λ w id. w) entity_store makes_keys
      (codes "e") none refl

-- The same key manager where it refuses every request.
abbrev refusing : Service EntityRow Text
refusing = record service {
  api_client = record service.api_client {
    send = λ method url headers body w. (some (codes "no"), w);
    status = λ response. 401;
  };
}

create_key_status_example :
    let request : DataKeyCreateRequest = record { identifier = Identifier.entity (codes "n") } in
    let made : DataKeyCreateResponse = record {
      identifier = Identifier.entity (codes "no");
      key_version = codes "v1";
    } in
    ((create_key_in_key_manager refusing request none).1 ≡ none)
    × (((create_key_in_key_manager refusing request none).0 ≡ ok made) ↔ (
        (refusing.api_client.status (codes "no") ≡ 200)
        × (refusing.read_key (codes "no") ≡ some made)))
    × (((create_key_in_key_manager refusing request none).0 ≡ err KeyManagerError.unauthorized) ↔ (
        (refusing.api_client.status (codes "no") ≡ 401)
        × ((b : Text) × (refusing.api_client.bytes (codes "no") ≡ some b))))
unfolding get_key_manager_header construct_header_map get_url
create_key_status_example =
    create_key_status refusing (record { identifier = Identifier.entity (codes "n") }) none none
      (codes "http://k") (codes "http://k/key/create") (get_key_manager_header refusing)
      (codes "no") refl refl refl refl
      (record { identifier = Identifier.entity (codes "no"); key_version = codes "v1" })

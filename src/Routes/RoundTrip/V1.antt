-- ===== src/Routes/RoundTrip/V1.antt =====
-- The routes of version 1: what was stored is retrieved, routes/data.rs.
use hyperswitch_card_vault.Common.{
  ◌≡◌, ◌∙◌, refl, ap, sym, subst, Option, none, some, Text, ok, if◌then◌else◌,
}
use hyperswitch_card_vault.Storage.Rows.{
  Bytes, Time, Encryptable, Locker, HashTable, get_encrypted_inner_value, from_decrypted_data,
  get_decrypted_inner_value,
}
use hyperswitch_card_vault.Domain.{insert_or_get, get_or_insert_locker, insert_or, or_conflict}
use hyperswitch_card_vault.KeyManager.{CryptoOperationsManager}
use hyperswitch_card_vault.Routes.Types.{
  StoreCardRequest, StoredData, RetrieveCardRequest, DataDuplicationCheck, Status, validate_store,
}
use hyperswitch_card_vault.Routes.Transformers.{
  Codec, get_hash, store_card_response, retrieve_card_response, stored_data, retrieved, same_data,
  get_data_duplication_status,
}
use hyperswitch_card_vault.Routes.Data.{
  Runtime, TenantState, locker_new, stored_of_request, decrypt_data, decrypt_locker, add_stored,
  add_hashed, add_card, retrieve_card, encrypt_data_and_insert_into_db,
}
use hyperswitch_card_vault.Routes.Laws.{
  expiring, check_expiry-expiring, IsManager, HasKey, Cards, IsCardStore, locker_row,
}

module _ {W : Type 0} (runtime : Runtime W) (codec : Codec) (state : TenantState W)
    (cards : W → Cards) (store : IsCardStore state.hashes state.lockers cards)
    (manager : CryptoOperationsManager W) where
  abbrev hash_rows : W → Bytes → Option HashTable
  hash_rows u = (cards u).hash_rows

  abbrev rows : W → Text → Text → Text → Option Locker
  rows u = (cards u).rows

  abbrev hashed : W → Text → Text → Text → Option Locker
  hashed u = (cards u).hashed

  -- A row that opens to a text of stored data reads as these, unless it has expired.
  retrieve-row :
      (request : RetrieveCardRequest) (w : W) (row : Locker) (sealed plain : Bytes)
      (stored : StoredData)
      → HasKey state.keys request.merchant_id manager
      → rows w request.card_reference request.merchant_id request.merchant_customer_id ≡ some row
      → row.content ≡ Encryptable.encrypted sealed
      → manager.decrypt_data sealed w ≡ (ok plain, w)
      → codec.stored_from_slice plain ≡ some stored
      → retrieve_card runtime codec state request w
        ≡ expiring runtime
            (state.lockers.delete_locker request.card_reference request.merchant_id
              request.merchant_customer_id)
            row.ttl
            (ok (retrieved stored))
            w
  unfolding retrieve_card retrieve_card_response stored_data decrypt_locker decrypt_data
      get_encrypted_inner_value get_decrypted_inner_value from_decrypted_data
  retrieve-row request w row sealed plain stored has there content opens reads = simp (
    has.finds w,
    store.find_row w request.card_reference request.merchant_id request.merchant_customer_id row
        there,
    content,
    opens,
    reads,
    check_expiry-expiring,
  )

  -- An addition of data whose hash is known, by a customer who has a row for it.
  add-known :
      (request : StoreCardRequest) (w : W) (hash_data : Bytes) (hash_table : HashTable)
      (row : Locker) (sealed plain : Bytes) (stored : StoredData)
      → HasKey state.keys request.merchant_id manager
      → validate_store runtime.is_whitespace (runtime.now w) request ≡ ok tt
      → get_hash codec request.content ≡ ok hash_data
      → hash_rows w hash_data ≡ some hash_table
      → hashed w hash_table.hash_id request.merchant_id request.merchant_customer_id ≡ some row
      → row.content ≡ Encryptable.encrypted sealed
      → manager.decrypt_data sealed w ≡ (ok plain, w)
      → codec.stored_from_slice plain ≡ some stored
      → add_card runtime codec state request w ≡ (
        ok (record {
          status = Status.ok;
          payload = some (record {
            card_reference = row.locker_id;
            duplication_check = some (
                if same_data stored request.content
                then DataDuplicationCheck.duplicated
                else DataDuplicationCheck.meta_data_changed);
          });
        }),
        w,
      )
  unfolding add_card add_hashed add_stored store_card_response stored_data
      get_data_duplication_status decrypt_locker decrypt_data get_encrypted_inner_value
      get_decrypted_inner_value from_decrypted_data
  add-known request w hash_data hash_table row sealed plain stored has valid data_hash known mine
        content opens reads =
      simp (
        valid,
        data_hash,
        store.find_hash w hash_data,
        known,
        has.finds_or_creates w,
        store.find_hashed w hash_table.hash_id request.merchant_id request.merchant_customer_id,
        mine,
        content,
        opens,
        reads,
      )

  module _ (request : StoreCardRequest) (reference : Text) (w : W) (hash_data plain : Bytes)
      (has : HasKey state.keys request.merchant_id manager) (manages : IsManager manager cards)
      (valid : validate_store runtime.is_whitespace (runtime.now w) request ≡ ok tt)
      (data_hash : get_hash codec request.content ≡ ok hash_data)
      (named : request.requestor_card_reference ≡ some reference)
      (writes : codec.stored_to_vec (stored_of_request request.content) ≡ some plain)
      (unknown : hash_rows w hash_data ≡ none) where
    add_card_lem :
        (sealed : Bytes) (hash_table : HashTable) (w2 w3 w' : W) (row : Locker)
        → state.hashes.insert_hash hash_data w ≡ (ok hash_table, w2)
        → manager.encrypt_data plain w2 ≡ (ok sealed, w3)
        → get_or_insert_locker state.lockers
            (locker_new request hash_table.hash_id sealed
              (runtime.generate_uuid w3)
              (runtime.now w3))
            w3
          ≡ (ok row, w')
        → add_card runtime codec state request w ≡ (ok (store_card_response none row), w')
    unfolding add_card add_hashed encrypt_data_and_insert_into_db insert_or_get insert_or
        or_conflict
    add_card_lem sealed hash_table w2 w3 w' row made encrypts inserted = simp (
      valid,
      data_hash,
      store.find_hash w hash_data,
      unknown,
      has.finds_or_creates w,
      made,
      writes,
      encrypts,
      inserted,
    )

    named_id :
        (hash_id : Text) (sealed : Bytes) (uuid : Text) (now : Time)
        → (locker_new request hash_id sealed uuid now).locker_id ≡ reference
    unfolding locker_new
    named_id hash_id sealed uuid now = rw named refl

    -- The row under the reference is the request's, and also the customer's row for the hash.
    record Added (w' : W) : Type 0 where
      hash_table : HashTable
      row : Locker
      sealed : Bytes
      answer : add_card runtime codec state request w ≡ (
        ok (record {
          status = Status.ok;
          payload = some (record { card_reference = reference; duplication_check = none });
        }),
        w',
      )
      there : rows w' reference request.merchant_id request.merchant_customer_id ≡ some row
      mine :
          hashed w' hash_table.hash_id request.merchant_id request.merchant_customer_id ≡ some row
      known : hash_rows w' hash_data ≡ some hash_table
      id : row.locker_id ≡ reference
      ttl : row.ttl ≡ request.ttl
      content : row.content ≡ Encryptable.encrypted sealed
      opens : (u : W) → manager.decrypt_data sealed u ≡ (ok plain, u)

    added :
        rows w reference request.merchant_id request.merchant_customer_id ≡ none
        → (w' : W) × Added w'
    unfolding get_or_insert_locker insert_or or_conflict store_card_response locker_new
    added free =
        let (t, w2, made, known, kept, fresh) = store.insert_hash w hash_data unknown in
        let (sealed, w3, encrypts, same, opens) = manages.seals plain w2 in
        let new = locker_new request t.hash_id sealed (runtime.generate_uuid w3) (runtime.now w3) in
        let id = named_id t.hash_id sealed (runtime.generate_uuid w3) (runtime.now w3) in
        let no_row =
          ap (λ l. rows w3 l request.merchant_id request.merchant_customer_id) id
          ∙ ap (λ v. v.rows reference request.merchant_id request.merchant_customer_id) same
          ∙ ap (λ f. f reference request.merchant_id request.merchant_customer_id) kept
          ∙ free in
        let no_hashed =
          ap (λ v. v.hashed t.hash_id request.merchant_id request.merchant_customer_id) same
          ∙ fresh request.merchant_id request.merchant_customer_id in
        let (scheme, w', wrote, there, mine, hashes) = store.insert_new w3 new no_row no_hashed in
        (
          w',
          record {
            hash_table = t;
            row = locker_row scheme new;
            sealed = sealed;
            answer =
                add_card_lem sealed t w2 w3 w' (locker_row scheme new) made encrypts (simp wrote)
                ∙ simp id;
            there =
                ap (λ l. rows w' l request.merchant_id request.merchant_customer_id) (sym id)
                ∙ there;
            mine = mine;
            known = ap (λ f. f hash_data) hashes ∙ ap (λ v. v.hash_rows hash_data) same ∙ known;
            id = id;
            ttl = refl;
            content = refl;
            opens = opens;
          },
        )

    -- On a store of cards with the key-value layer disabled, for a merchant that has a key, a valid
    -- request with a reference, whose data becomes JSON that reads back and has a hash that the
    -- vault does not know, and no row under the reference: the card is stored under the reference,
    -- and a retrieve then answers the data of the request, unless the clock is past the time to
    -- live, when it answers that nothing is found and spawns the deletion.
    pub add_then_retrieve_card :
        rows w reference request.merchant_id request.merchant_customer_id ≡ none
        → codec.stored_from_slice plain ≡ some (stored_of_request request.content)
        → let retrieve : RetrieveCardRequest = record {
          merchant_id = request.merchant_id;
          merchant_customer_id = request.merchant_customer_id;
          card_reference = reference;
        } in
          (w' : W) × (add_card runtime codec state request w ≡ (
            ok (record {
              status = Status.ok;
              payload = some (record { card_reference = reference; duplication_check = none });
            }),
            w',
          ))
          × (retrieve_card runtime codec state retrieve w'
              ≡ expiring runtime
                  (state.lockers.delete_locker reference request.merchant_id
                    request.merchant_customer_id)
                  request.ttl
                  (ok (retrieved (stored_of_request request.content)))
                  w')
    add_then_retrieve_card free reads =
        let (w', a) = added free in
        (
          w',
          a.answer,
          rw (sym a.ttl) (
              retrieve-row _ w' a.row a.sealed plain (stored_of_request request.content) has a.there
                a.content (a.opens w') reads),
        )

    -- On a store of cards with the key-value layer disabled, for a merchant that has a key, a valid
    -- request with a reference, whose data becomes JSON that reads back and has a hash that the
    -- vault does not know, and no row under the reference, and for another request of the customer
    -- that is valid at any time and whose data has the same hash: the first addition answers the
    -- reference and no duplication check; the second answers the reference of the first, whatever
    -- its own, says whether the data are the same, and changes nothing.
    pub add_again :
        (again : StoreCardRequest)
        → again.merchant_id ≡ request.merchant_id
        → again.merchant_customer_id ≡ request.merchant_customer_id
        → ((u : W) → validate_store runtime.is_whitespace (runtime.now u) again ≡ ok tt)
        → get_hash codec again.content ≡ ok hash_data
        → rows w reference request.merchant_id request.merchant_customer_id ≡ none
        → codec.stored_from_slice plain ≡ some (stored_of_request request.content)
        → (w' : W) × (add_card runtime codec state request w ≡ (
          ok (record {
            status = Status.ok;
            payload = some (record { card_reference = reference; duplication_check = none });
          }),
          w',
        ))
          × (add_card runtime codec state again w' ≡ (
            ok (record {
              status = Status.ok;
              payload = some (record {
                card_reference = reference;
                duplication_check = some (
                    if same_data (stored_of_request request.content) again.content
                    then DataDuplicationCheck.duplicated
                    else DataDuplicationCheck.meta_data_changed);
              });
            }),
            w',
          ))
    add_again again same_merchant same_customer again_valid again_hash free reads =
        let (w', a) = added free in
        (
          w',
          a.answer,
          add-known again w' hash_data a.hash_table a.row a.sealed plain
                (stored_of_request request.content)
                (subst (λ m. HasKey state.keys m manager) (sym same_merchant) has) (again_valid w')
                again_hash a.known (rw (same_merchant, same_customer) a.mine) a.content (a.opens w')
                reads
              ∙ simp a.id,
        )

    -- On a store of cards with the key-value layer disabled, for a merchant that has a key, a valid
    -- request with a reference, whose data becomes JSON and has a hash that the vault does not
    -- know: where the reference has a row of the customer already, the answer is a success with the
    -- reference and no duplication check, and that row, not the data of the request, is what the
    -- reference then reads.
    pub add_reused_reference :
        (row : Locker)
        → rows w reference request.merchant_id request.merchant_customer_id ≡ some row
        → row.locker_id ≡ reference
        → (w' : W) × (add_card runtime codec state request w ≡ (
          ok (record {
            status = Status.ok;
            payload = some (record { card_reference = reference; duplication_check = none });
          }),
          w',
        ))
          × (state.lockers.find_by_locker_id_merchant_id_customer_id reference request.merchant_id
                request.merchant_customer_id w'
              ≡ (ok row, w'))
    unfolding get_or_insert_locker insert_or or_conflict store_card_response locker_new
    add_reused_reference row h own =
        let (t, w2, made, known, kept, fresh) = store.insert_hash w hash_data unknown in
        let (sealed, w3, encrypts, same, opens) = manages.seals plain w2 in
        let new = locker_new request t.hash_id sealed (runtime.generate_uuid w3) (runtime.now w3) in
        let id = named_id t.hash_id sealed (runtime.generate_uuid w3) (runtime.now w3) in
        let taken =
          ap (λ l. rows w3 l request.merchant_id request.merchant_customer_id) id
          ∙ ap (λ v. v.rows reference request.merchant_id request.merchant_customer_id) same
          ∙ ap (λ f. f reference request.merchant_id request.merchant_customer_id) kept
          ∙ h in
        let (w', refused, stays) = store.insert_old w3 new row taken in
        let there =
          ap (λ f. f new.locker_id request.merchant_id request.merchant_customer_id) stays
          ∙ taken in
        let found =
          store.find_row w' new.locker_id request.merchant_id request.merchant_customer_id row
            there in
        (
          w',
          add_card_lem sealed t w2 w3 w' row made encrypts (simp (refused, found)) ∙ simp own,
          store.find_row w' reference request.merchant_id request.merchant_customer_id row (
              ap (λ l. rows w' l request.merchant_id request.merchant_customer_id) (sym id)
              ∙ there),
        )

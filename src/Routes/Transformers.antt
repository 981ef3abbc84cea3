-- ===== src/Routes/Transformers.antt =====
-- routes/data/transformers.rs: responses from rows, the hash of a request's data and the test for a
-- duplicate. JSON and the SHA-512 digest are parameters.
use hyperswitch_card_vault.Common.{
  Bool, false, Option, none, some, Text, same_text, Result, err, ok_or, map_ok, if◌then◌else◌,
}
use hyperswitch_card_vault.Error.Types.{ApiError}
use hyperswitch_card_vault.Storage.Rows.{Bytes, Locker, get_decrypted_inner_value}
use hyperswitch_card_vault.Routes.Types.{
  DataDuplicationCheck, RequestData, StoredData, Status, StoreCardResponse, RetrieveCardResponse,
  same_card,
}

-- `serde_json` on a text and on stored data, and the digest.
pub record Codec : Type 0 where
  pub text_to_vec : Text → Option Bytes
  pub stored_to_vec : StoredData → Option Bytes
  pub stored_from_slice : Bytes → Option StoredData
  pub sha512 : Bytes → Bytes

-- From<(Option<DataDuplicationCheck>, Locker)> for StoreCardResponse
unfoldable pub store_card_response : Option DataDuplicationCheck → Locker → StoreCardResponse
store_card_response duplication_check value = record {
  status = Status.ok;
  payload =
      some (record { card_reference = value.locker_id; duplication_check = duplication_check });
}

unfoldable pub same_data : StoredData → RequestData → Bool
same_data (StoredData.enc_data request) (RequestData.enc_data enc_card_data) =
    same_text request enc_card_data
same_data (StoredData.card_data request) (RequestData.card card) = same_card request card
same_data (StoredData.enc_data request) (RequestData.card card) = false
same_data (StoredData.card_data request) (RequestData.enc_data enc_card_data) = false

-- What of a request's data is hashed.
unfoldable pub hashed_text : RequestData → Text
hashed_text (RequestData.enc_data enc_card_data) = enc_card_data
hashed_text (RequestData.card card) = card.card_number

unfoldable pub retrieved : StoredData → RetrieveCardResponse
retrieved (StoredData.enc_data content) = record {
  status = Status.ok;
  payload = some (record { card = none; enc_card_data = some content });
}
retrieved (StoredData.card_data card) = record {
  status = Status.ok;
  payload = some (record { card = some card; enc_card_data = none });
}

module _ (codec : Codec) where
  -- The stored data of a row that was decrypted.
  unfoldable pub stored_data : Locker → Result ApiError StoredData
  stored_data value = elim (get_decrypted_inner_value value.content) [
    | none ↦ err ApiError.decoding_error
    | some decrypted_data ↦ ok_or ApiError.decoding_error (codec.stored_from_slice decrypted_data)
  ]

  -- TryFrom<Locker> for RetrieveCardResponse
  unfoldable pub retrieve_card_response : Locker → Result ApiError RetrieveCardResponse
  unfolding stored_data
  retrieve_card_response value = map_ok retrieved (stored_data value)

  unfoldable pub get_hash : RequestData → Result ApiError Bytes
  unfolding hashed_text
  get_hash request =
      map_ok codec.sha512 (ok_or ApiError.encoding_error (codec.text_to_vec (hashed_text request)))

  unfoldable pub get_data_duplication_status :
      Locker → RequestData → Result ApiError DataDuplicationCheck
  unfolding stored_data
  get_data_duplication_status stored_payload request_data =
      map_ok
        (λ stored.
          if same_data stored request_data
          then DataDuplicationCheck.duplicated
          else DataDuplicationCheck.meta_data_changed)
        (stored_data stored_payload)

-- ===== src/Routes/Types.antt =====
-- routes/data/types.rs: requests, responses, `Ttl` and the validation of a request to store.
use hyperswitch_card_vault.Common.{
  ℕ, ◌+◌, ◌*◌, ◌^◌, min, ◌&&◌, Bool, true, false, Option, none, some, Text, same_text, Result, err,
  leb, ltb, if◌then◌else◌,
}
use hyperswitch_card_vault.Error.Types.{ApiError}
use hyperswitch_card_vault.Storage.Rows.{Time}
use hyperswitch_card_vault.Validations.{validate}

pub record Card : Type 0 where
  pub card_number : Text
  pub name_on_card : Option Text
  pub card_exp_month : Option Text
  pub card_exp_year : Option Text
  pub card_brand : Option Text
  pub card_isin : Option Text
  pub nick_name : Option Text

pub data DataDuplicationCheck : Type 0 where
  duplicated meta_data_changed : DataDuplicationCheck

-- Data
pub data RequestData : Type 0 where
  enc_data : Text → RequestData
  card : Card → RequestData

pub data StoredData : Type 0 where
  enc_data : Text → StoredData
  card_data : Card → StoredData

pub record StoreCardRequest : Type 0 where
  pub merchant_id : Text
  pub merchant_customer_id : Text
  pub requestor_card_reference : Option Text
  pub content : RequestData
  pub ttl : Option Time

pub record StoreCardRespPayload : Type 0 where
  pub card_reference : Text
  pub duplication_check : Option DataDuplicationCheck

pub record RetrieveCardRequest : Type 0 where
  pub merchant_id : Text
  pub merchant_customer_id : Text
  pub card_reference : Text

pub record RetrieveCardRespPayload : Type 0 where
  pub card : Option Card
  pub enc_card_data : Option Text

pub data Status : Type 0 where
  ok : Status

pub record StoreCardResponse : Type 0 where
  pub status : Status
  pub payload : Option StoreCardRespPayload

pub record RetrieveCardResponse : Type 0 where
  pub status : Status
  pub payload : Option RetrieveCardRespPayload

pub record DeleteCardResponse : Type 0 where
  pub status : Status

unfoldable pub same_option : Option Text → Option Text → Bool
same_option none none = true
same_option (some s) (some t) = same_text s t
same_option none (some t) = false
same_option (some s) none = false

-- The derived equality of cards.
unfoldable pub same_card : Card → Card → Bool
unfolding same_option
same_card c d =
    same_text c.card_number d.card_number
    && (same_option c.name_on_card d.name_on_card
        && (same_option c.card_exp_month d.card_exp_month
            && (same_option c.card_exp_year d.card_exp_year
                && (same_option c.card_brand d.card_brand
                    && (same_option c.card_isin d.card_isin
                        && same_option c.nick_name d.nick_name)))))

-- The deserialization of `Ttl`: seconds from now. `none` is a number that is no `i64`; `max` is the last
-- `PrimitiveDateTime`.
unfoldable pub deserialize_ttl : Time → Time → Option ℕ → Option (Option Time)
deserialize_ttl max now none = some none
deserialize_ttl max now (some seconds) =
    if ltb seconds (2 ^ 63) then some (some (min (now + seconds * 1000000000) max)) else none

-- Validation for Ttl
unfoldable pub validate_ttl : Time → Option Time → Result ApiError (Unit {0})
validate_ttl now none = Result.ok tt
validate_ttl now (some ttl) = if leb ttl now then err ApiError.invalid_ttl else Result.ok tt

-- `is_whitespace` is the library's test of a character.
module _ (is_whitespace : ℕ → Bool) where
  unfoldable pub validate_data : RequestData → Result ApiError (Unit {0})
  validate_data (RequestData.enc_data _) = Result.ok tt
  validate_data (RequestData.card c) = validate is_whitespace c.card_number

  -- Validation for StoreCardRequest
  unfoldable pub validate_store : Time → StoreCardRequest → Result ApiError (Unit {0})
  unfolding validate_ttl validate_data
  validate_store now self = elim (validate_ttl now self.ttl) [
    | err e ↦ err e
    | Result.ok _ ↦ validate_data self.content
  ]

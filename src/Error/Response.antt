-- ===== src/Error/Response.antt =====
-- `IntoResponse for ApiError` and the messages of error.rs.
use hyperswitch_card_vault.Common.{ℕ, String, ◌++◌, Text, codes}
use hyperswitch_card_vault.Error.Types.{ApiError}

-- The status and the JSON body; `data` is always null.
pub record Response : Type 0 where
  pub status : ℕ
  pub code : String
  pub message : Text

-- Display, from the `#[error]` attributes.
unfoldable pub display : ApiError → Text
display (ApiError.retrieve_data_failed _) = codes "failed while retrieving stored data"
display (ApiError.decrypting_keys_failed s) =
    codes "failed to decrypt two custodian keys: " ++ codes s
display (ApiError.request_middleware_error s) = codes "failed in request middleware: " ++ codes s
display (ApiError.response_middleware_error s) = codes "failed in response middleware: " ++ codes s
display ApiError.encoding_error = codes "Error while encoding data"
display ApiError.decoding_error = codes "Failed while decoding data"
display (ApiError.database_insert_failed s) = codes "Failed while inserting data into " ++ codes s
display (ApiError.database_delete_failed s) = codes "failed while deleting data from " ++ codes s
display ApiError.merchant_error = codes "Failed while getting merchant from DB"
display ApiError.unknown_error = codes "Something went wrong"
display ApiError.merchant_key_error = codes "Error while encrypting with merchant key"
display ApiError.database_error = codes "Failed while connecting to database"
display (ApiError.validation_error s) = codes "Failed while validation: " ++ codes s
display ApiError.not_found_error = codes "Requested resource not found"
display ApiError.invalid_ttl = codes "TTL is invalid"
display ApiError.custodian_locked = codes "Custodian is locked"
display ApiError.custodian_unlocked = codes "Custodian is already unlocked"
display (ApiError.tenant_error s) = codes "Tenant error: " ++ codes s
display (ApiError.key_manager_error s) = codes "Key manager error: " ++ codes s

abbrev te_00 : String
te_00 = "TE_00"

abbrev te_01 : String
te_01 = "TE_01"

abbrev te_02 : String
te_02 = "TE_02"

abbrev te_03 : String
te_03 = "TE_03"

abbrev respond : ℕ → String → ApiError → Response
respond s c e = record { status = s; code = c; message = display e }

unfoldable pub into_response : ApiError → Response
into_response ApiError.custodian_locked = record {
  status = 401;
  code = te_00;
  message = codes "Custodian is locked";
}
into_response (ApiError.decrypting_keys_failed s) = record {
  status = 401;
  code = te_00;
  message = codes "Failed while decrypting two custodian keys: " ++ codes s;
}
into_response ApiError.encoding_error = respond 500 te_00 ApiError.encoding_error
into_response (ApiError.response_middleware_error s) =
    respond 500 te_00 (ApiError.response_middleware_error s)
into_response ApiError.unknown_error = respond 500 te_00 ApiError.unknown_error
into_response ApiError.merchant_key_error = respond 500 te_00 ApiError.merchant_key_error
into_response (ApiError.key_manager_error s) = respond 500 te_00 (ApiError.key_manager_error s)
into_response (ApiError.database_insert_failed s) =
    respond 500 te_01 (ApiError.database_insert_failed s)
into_response ApiError.database_error = respond 500 te_01 ApiError.database_error
into_response (ApiError.database_delete_failed s) =
    respond 500 te_01 (ApiError.database_delete_failed s)
into_response (ApiError.retrieve_data_failed s) =
    respond 500 te_01 (ApiError.retrieve_data_failed s)
into_response (ApiError.request_middleware_error s) =
    respond 400 te_03 (ApiError.request_middleware_error s)
into_response ApiError.decoding_error = respond 400 te_03 ApiError.decoding_error
into_response (ApiError.validation_error s) = respond 400 te_03 (ApiError.validation_error s)
into_response ApiError.invalid_ttl = respond 400 te_03 ApiError.invalid_ttl
into_response ApiError.custodian_unlocked = respond 400 te_03 ApiError.custodian_unlocked
into_response (ApiError.tenant_error s) = respond 400 te_03 (ApiError.tenant_error s)
into_response ApiError.not_found_error = respond 404 te_02 ApiError.not_found_error
into_response ApiError.merchant_error = respond 500 te_02 ApiError.merchant_error

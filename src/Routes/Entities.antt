-- ===== src/Routes/Entities.antt =====
-- routes/entity.rs, and the header of the fingerprint route in custom_extractors.rs. The tests of a
-- character for being white or alphanumeric, and the text of a header, are the library's.
use hyperswitch_card_vault.Common.{
  ℕ, Bool, ◌&&◌, ◌||◌, not, Option, none, some, Text, Result, ok, err, map_err, all, length, leb,
  ◌==◌, if◌then◌else◌, Fault, raised, Exec, pure, ◌>>◌,
}
use hyperswitch_card_vault.Error.Types.{ApiError}
use hyperswitch_card_vault.KeyManager.{KeyProvider, CreatedEntity}

-- `entity_id.trim().is_empty()`: the text has white characters only.
unfoldable pub validate_entity : (ℕ → Bool) → Text → Result ApiError (Unit {0})
validate_entity is_whitespace entity_id =
    if all is_whitespace entity_id
    then err (ApiError.validation_error "entity_id must not be empty")
    else ok tt

-- The response is the created entity's fields.
unfoldable pub create_entity :
    {W : Type 0} → (ℕ → Bool) → KeyProvider W → Text → Exec W (Fault ApiError) CreatedEntity
unfolding validate_entity
create_entity is_whitespace keys entity_id = do
  pure (map_err raised (validate_entity is_whitespace entity_id))
  keys.create_entity entity_id

abbrev pub id_length : ℕ
id_length = 20

-- char::is_ascii_alphanumeric
unfoldable pub is_ascii_alphanumeric : ℕ → Bool
is_ascii_alphanumeric c =
    (leb b'0' c && leb c b'9') || ((leb b'A' c && leb c b'Z') || (leb b'a' c && leb c b'z'))

-- OptionalFingerprintId, from the header where it is there and is visible ASCII, of which a character is
-- a byte.
unfoldable pub optional_fingerprint_id : Option Text → Result ApiError (Option Text)
unfolding is_ascii_alphanumeric
optional_fingerprint_id none = ok none
optional_fingerprint_id (some s) =
    if not (length s == id_length) || not (all is_ascii_alphanumeric s)
    then err
        (ApiError.validation_error "x-fingerprint-id must be exactly 20 alphanumeric characters")
    else ok (some s)

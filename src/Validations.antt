-- ===== src/Validations.antt =====
-- validations.rs: the check of a card number. A character is its code point, a `u8` a number below
-- 256 with wrap-around after each operation, as in a release build.
pub mod Luhn
pub mod Detection
pub mod Checked
pub mod Tests
use hyperswitch_card_vault.Common.{
  ℕ, ◌+◌, ◌-◌, ◌*◌, ◌/◌, ◌%◌, Bool, ◌&&◌, List, [], ◌∷◌, reverse, leb, ◌==◌, if◌then◌else◌, length,
  Text, Result, ok, err,
}
use hyperswitch_card_vault.Error.Types.{ApiError}

abbrev pub min_card_number_length : ℕ
min_card_number_length = 8

abbrev pub max_card_number_length : ℕ
max_card_number_length = 19

abbrev pub u8 : ℕ → ℕ
u8 n = n % 256

abbrev pub is_digit : ℕ → Bool
is_digit c = leb b'0' c && leb c b'9'

-- The `try_fold` over `chars`: `to_digit(10)` of each character, or the first failure.
unfoldable pub validate_card_number_chars : Text → Result ApiError (List ℕ)
validate_card_number_chars [] = ok []
validate_card_number_chars (c ∷ number) =
    let rest = validate_card_number_chars number in
    if is_digit c
    then elim rest [ ok digits ↦ ok ((c - b'0') ∷ digits) | err e ↦ err e ]
    else err (ApiError.validation_error "invalid character found in card number")

unfoldable pub validate_card_number_length : List ℕ → Result ApiError (List ℕ)
validate_card_number_length number =
    if leb min_card_number_length (length number) && leb (length number) max_card_number_length
    then ok number
    else err (ApiError.validation_error "invalid card number length")

-- The closure under `map`, at index `idx` from the right.
abbrev pub term : ℕ → ℕ → ℕ
term idx element = u8 (
    u8 (u8 (u8 (element * 2) / 10 + u8 (element * 2) % 10) * (u8 idx % 2))
    + u8 (element * (u8 (idx + 1) % 2)))

-- `enumerate`, `map` and `sum::<u8>` in one pass.
unfoldable pub sum_terms : ℕ → ℕ → List ℕ → ℕ
sum_terms idx acc [] = acc
sum_terms idx acc (element ∷ rest) = sum_terms (idx + 1) (u8 (acc + term idx element)) rest

unfoldable pub luhn : List ℕ → Bool
unfolding sum_terms
luhn number = sum_terms 0 0 (reverse number) % 10 == 0

module _ (is_whitespace : ℕ → Bool) where
  -- `split_whitespace().collect::<String>()`
  unfoldable pub strip_whitespace : Text → Text
  strip_whitespace [] = []
  strip_whitespace (c ∷ cs) =
      let rest = strip_whitespace cs in if is_whitespace c then rest else c ∷ rest

  unfoldable pub sanitize_card_number : Text → Result ApiError Bool
  unfolding strip_whitespace validate_card_number_chars validate_card_number_length luhn
  sanitize_card_number card_number =
      elim (validate_card_number_chars (strip_whitespace card_number)) [
        | err e ↦ err e
        | ok digits ↦ elim (validate_card_number_length digits) [
          | err e ↦ err e
          | ok number ↦ ok (luhn number)
        ]
      ]

  -- `CardNumber::validate` of storage/types.rs.
  unfoldable pub validate : Text → Result ApiError (Unit {0})
  unfolding sanitize_card_number
  validate card_number = elim (sanitize_card_number card_number) [
    | err e ↦ err e
    | ok valid ↦ if valid then ok tt else err (ApiError.validation_error "card number invalid")
  ]

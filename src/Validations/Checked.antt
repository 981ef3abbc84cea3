-- ===== src/Validations/Checked.antt =====
-- Exactly which texts validations.rs takes for a card number, and with which error it refuses one.
use hyperswitch_card_vault.Common.{
  ℕ, suc, ◌-◌, ◌%◌, ◌≤◌, ◌<◌, ◌≡◌, ◌≢◌, ◌↔◌, ◌⊎◌, refl, ap, Bool, true, false, [], ◌∷◌, map,
  reverse, length, all, Text, ok, err, Bool-cases, inl, inr, arith, ◌==◌, if◌then◌else◌,
}
use hyperswitch_card_vault.Error.Types.{ApiError}
use hyperswitch_card_vault.Validations.{
  is_digit, validate_card_number_chars, strip_whitespace, validate,
}
use hyperswitch_card_vault.Validations.Luhn.{checksum, IsDigits, luhn-eq-checksum}

-- The value of a digit character.
abbrev pub digit_of : ℕ → ℕ
digit_of c = c - b'0'

abbrev bad_character : ApiError
bad_character = ApiError.validation_error "invalid character found in card number"

abbrev bad_length : ApiError
bad_length = ApiError.validation_error "invalid card number length"

abbrev bad_checksum : ApiError
bad_checksum = ApiError.validation_error "card number invalid"

chars_lem :
    (s : Text)
    → validate_card_number_chars s
      ≡ (if all is_digit s then ok (map digit_of s) else err bad_character)
unfolding validate_card_number_chars
chars_lem [] = refl
chars_lem (c ∷ s) = rw (chars_lem s) (ground arith)

digit_of-IsDigits : (s : Text) → all is_digit s ≡ true → IsDigits (map digit_of s)
digit_of-IsDigits [] h = tt
digit_of-IsDigits (c ∷ s) h = (ground arith, digit_of-IsDigits s (ground arith))

length-digits : (s : Text) → length (map digit_of s) ≡ length s
length-digits [] = refl
length-digits (c ∷ s) = ap suc (length-digits s)

abbrev InRange : Text → Type 0
InRange s = (8 ≤ length s) × (length s ≤ 19)

-- The sum of the Luhn algorithm over the digits of a text.
abbrev pub luhn_sum : Text → ℕ
luhn_sum s = checksum false (reverse (map digit_of s))

-- 8 to 19 digits whose Luhn sum is a multiple of ten.
pub record IsCardNumber (s : Text) : Type 0 where
  pub numeral : all is_digit s ≡ true
  pub min : 8 ≤ length s
  pub max : length s ≤ 19
  pub sum : luhn_sum s % 10 ≡ 0

module _ (is_whitespace : ℕ → Bool) (card_number : Text) where
  abbrev stripped : Text
  stripped = strip_whitespace is_whitespace card_number

  validate_chars :
      all is_digit stripped ≡ false → validate is_whitespace card_number ≡ err bad_character
  unfolding validate
  validate_chars h = ground (arith, chars_lem stripped)

  validate_length :
      all is_digit stripped ≡ true
      → ¬ InRange stripped
      → validate is_whitespace card_number ≡ err bad_length
  unfolding validate
  validate_length h out = ground (arith, chars_lem stripped, length-digits stripped)

  validate_sum :
      all is_digit stripped ≡ true
      → InRange stripped
      → validate is_whitespace card_number
        ≡ (if luhn_sum stripped % 10 == 0 then ok tt else err bad_checksum)
  unfolding validate
  validate_sum h fits = ground (
    arith,
    chars_lem stripped,
    length-digits stripped,
    luhn-eq-checksum (map digit_of stripped) (digit_of-IsDigits stripped h)
        (omega (arith, length-digits stripped)),
  )

-- `CardNumber::validate` accepts a text exactly when the text without its whitespace is 8 to 19 digits
-- whose Luhn sum is a multiple of ten.
pub validate_iff :
    (is_whitespace : ℕ → Bool) (card_number : Text)
    → (validate is_whitespace card_number ≡ ok tt)
      ↔ IsCardNumber (strip_whitespace is_whitespace card_number)
validate_iff is_whitespace card_number = (to (Bool-cases (all is_digit s)), from)
  where
    s : Text
    s = strip_whitespace is_whitespace card_number

    to :
        (all is_digit s ≡ true) ⊎ (all is_digit s ≡ false)
        → validate is_whitespace card_number ≡ ok tt
        → IsCardNumber s
    to (inl h) e = ground (
      arith,
      validate_length is_whitespace card_number h,
      validate_sum is_whitespace card_number h,
    )
    to (inr h) e = ground (arith, validate_chars is_whitespace card_number h)

    from : IsCardNumber s → validate is_whitespace card_number ≡ ok tt
    from c = ground (arith, validate_sum is_whitespace card_number c.numeral (c.min, c.max))

-- A refused text has the error of the first test that it fails: the characters, the length, the
-- checksum.
pub validate_errors :
    (is_whitespace : ℕ → Bool) (card_number : Text)
    → let s = strip_whitespace is_whitespace card_number in
      (all is_digit s ≡ false → validate is_whitespace card_number ≡ err bad_character)
      × (all is_digit s ≡ true
          → (length s < 8) ⊎ (19 < length s)
          → validate is_whitespace card_number ≡ err bad_length)
      × (all is_digit s ≡ true
          → 8 ≤ length s
          → length s ≤ 19
          → luhn_sum s % 10 ≢ 0
          → validate is_whitespace card_number ≡ err bad_checksum)
validate_errors is_whitespace card_number = (
  validate_chars is_whitespace card_number,
  λ h out. validate_length is_whitespace card_number h (λ fits. ground arith),
  λ h min max sum. ground (arith, validate_sum is_whitespace card_number h (min, max)),
)

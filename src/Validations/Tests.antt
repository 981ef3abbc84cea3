-- ===== src/Validations/Tests.antt =====
-- Runs of validations.rs, and its theorems at concrete card numbers.
use hyperswitch_card_vault.Common.{
  ℕ, ◌≡◌, ◌↔◌, refl, Bool, true, false, List, [], ◌∷◌, replicate, ◌%◌, reverse, ◌==◌, codes, ok,
  err, arith,
}
use hyperswitch_card_vault.Error.Types.{ApiError}
use hyperswitch_card_vault.Validations.{luhn, validate, strip_whitespace}
use hyperswitch_card_vault.Validations.Luhn.{checksum, luhn-eq-checksum}
use hyperswitch_card_vault.Validations.Detection.{Swappable, luhn_single_error, luhn_swap_error}
use hyperswitch_card_vault.Validations.Checked.{IsCardNumber, validate_iff}

abbrev space : ℕ → Bool
space c = c == b' '

accepts : validate space (codes "4242 4242 4242 4242") ≡ ok tt
unfolding validate
accepts = refl

refuses :
    validate space (codes "4242 4242 4242 4243")
    ≡ err (ApiError.validation_error "card number invalid")
unfolding validate
refuses = refl

-- Beyond the length limit the `u8` sum wraps, and the result is not that of the textbook.
wraps : (luhn (replicate 30 9) ≡ false) × (checksum false (reverse (replicate 30 9)) % 10 ≡ 0)
unfolding luhn checksum
wraps = (refl, refl)

abbrev card : List ℕ
card = 4 ∷ 2 ∷ 4 ∷ 2 ∷ 4 ∷ 2 ∷ 4 ∷ 2 ∷ 4 ∷ 2 ∷ 4 ∷ 2 ∷ 4 ∷ 2 ∷ 4 ∷ 2 ∷ []

luhn-eq-checksum_example : luhn card ≡ true
unfolding checksum
luhn-eq-checksum_example = luhn-eq-checksum card (omega arith) (omega arith)

luhn_single_error_example : luhn (4 ∷ 2 ∷ 7 ∷ 2 ∷ 4 ∷ 2 ∷ 4 ∷ 2 ∷ []) ≡ false
unfolding luhn
luhn_single_error_example =
    luhn_single_error (4 ∷ 2 ∷ []) (2 ∷ 4 ∷ 2 ∷ 4 ∷ 2 ∷ []) 4 7 (omega arith) (omega arith)
      (omega arith) (omega arith) (omega arith) refl

-- A swap that the checksum does not see.
luhn_swap_error_example : Swappable 9 0
unfolding luhn
luhn_swap_error_example =
    luhn_swap_error (4 ∷ 2 ∷ 7 ∷ 2 ∷ []) (0 ∷ 4 ∷ []) 0 9 (ground arith) (ground arith)
      (omega arith) (omega arith) refl refl

validate_iff_example :
    (validate space (codes "4242 4242 4242 4242") ≡ ok tt)
    ↔ IsCardNumber (strip_whitespace space (codes "4242 4242 4242 4242"))
validate_iff_example = validate_iff space (codes "4242 4242 4242 4242")

-- ===== src/Validations/Luhn.antt =====
-- The checksum of validations.rs against the Luhn algorithm over unbounded numbers: within the length
-- limit no `u8` wraps.
use native.Mathlib.Nat.{add_assoc, zero-add}
use hyperswitch_card_vault.Common.{
  ℕ, ◌+◌, ◌-◌, ◌*◌, ◌%◌, ◌≤◌, ◌<◌, ◌≡◌, ◌∙◌, Bool, true, false, not, List, [], ◌∷◌, reverse, ltb,
  ◌==◌, if◌then◌else◌, length, length-reverse, All, All-reverse, arith,
}
use hyperswitch_card_vault.Validations.{u8, term, sum_terms, luhn}

-- The textbook: every second digit from the right is doubled, less nine if two digits result.
abbrev pub weigh : Bool → ℕ → ℕ
weigh false d = d
weigh true d = if ltb 9 (d * 2) then d * 2 - 9 else d * 2

-- The sum over the digits from the right; the flag says whether the next one is doubled.
unfoldable pub checksum : Bool → List ℕ → ℕ
checksum doubled [] = 0
checksum doubled (d ∷ ds) = weigh doubled d + checksum (not doubled) ds

abbrev pub IsDigits : List ℕ → Type 0
IsDigits = All (λ d. d < 10)

-- Whether the digit at an index is doubled.
odd : ℕ → Bool
odd idx = idx % 2 == 1

weigh-lt : (b : Bool) (d : ℕ) → d < 10 → weigh b d < 10
weigh-lt true d h = ground arith
weigh-lt false d h = h

term-eq-weigh : (idx d : ℕ) → d < 10 → idx < 255 → term idx d ≡ weigh (odd idx) d
unfolding odd
term-eq-weigh idx d h k = ground arith

odd-suc : (idx : ℕ) → odd (idx + 1) ≡ not (odd idx)
unfolding odd
odd-suc idx = ground arith

sum_terms-eq-checksum :
    (idx acc : ℕ) (ds : List ℕ)
    → IsDigits ds
    → idx + length ds ≤ 255
    → acc + 9 * length ds < 256
    → sum_terms idx acc ds ≡ acc + checksum (odd idx) ds
unfolding sum_terms checksum
sum_terms-eq-checksum idx acc [] digits fits small = omega arith
sum_terms-eq-checksum idx acc (d ∷ ds) digits fits small = rw head (
    sum_terms-eq-checksum (idx + 1) (acc + weigh (odd idx) d) ds digits.1 (omega arith)
      (omega (arith, weigh-lt (odd idx) d digits.0))
    ∙ rw odd-suc (add_assoc acc (weigh (odd idx) d) (checksum (not (odd idx)) ds)))
  where
    head : u8 (acc + term idx d) ≡ acc + weigh (odd idx) d
    head = omega (arith, term-eq-weigh idx d digits.0 (omega arith), weigh-lt (odd idx) d digits.0)

-- Up to 28 digits the checksum in `u8` is that of the textbook.
pub luhn-eq-checksum :
    (number : List ℕ)
    → IsDigits number
    → length number ≤ 28
    → luhn number ≡ (checksum false (reverse number) % 10 == 0)
unfolding luhn odd
luhn-eq-checksum number digits fits =
    rw
      (sum_terms-eq-checksum 0 0 (reverse number) (All-reverse (λ d. d < 10) number digits)
        (omega (arith, length-reverse number)) (omega (arith, length-reverse number)))
      (rw zero-add)

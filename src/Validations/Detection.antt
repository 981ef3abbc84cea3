-- ===== src/Validations/Detection.antt =====
-- What the checksum of validations.rs detects.
use mathlib.Core.List.{reverse-append}
use hyperswitch_card_vault.Common.{
  ℕ, ◌+◌, ◌%◌, ◌≤◌, ◌<◌, ◌≡◌, ◌≢◌, ◌⊎◌, Bool, true, false, not, List, [], ◌∷◌, ◌++◌, reverse,
  length, Bool-cases, inl, inr, arith,
}
use hyperswitch_card_vault.Validations.{luhn}
use hyperswitch_card_vault.Validations.Luhn.{weigh, checksum, IsDigits, luhn-eq-checksum}

-- The flag after a list of digits.
flag_after : Bool → List ℕ → Bool
flag_after doubled [] = doubled
flag_after doubled (d ∷ ds) = flag_after (not doubled) ds

checksum-append :
    (b : Bool) (xs ys : List ℕ)
    → checksum b (xs ++ ys) ≡ checksum b xs + checksum (flag_after b xs) ys
unfolding checksum flag_after
checksum-append b [] ys = omega arith
checksum-append b (x ∷ xs) ys = omega (arith, checksum-append (not b) xs ys)

weigh_detects :
    (f : Bool) (a b c : ℕ)
    → a < 10
    → b < 10
    → (c + weigh f a) % 10 ≡ 0
    → (c + weigh f b) % 10 ≡ 0
    → a ≡ b
weigh_detects true a b c ha hb p q = ground arith
weigh_detects false a b c ha hb p q = omega arith

pair_detects :
    (f : Bool) (a b c : ℕ)
    → a < 10
    → b < 10
    → (c + (weigh f a + weigh (not f) b)) % 10 ≡ 0
    → (c + (weigh f b + weigh (not f) a)) % 10 ≡ 0
    → (a ≡ b) ⊎ ((a ≡ 0) × (b ≡ 9)) ⊎ ((a ≡ 9) × (b ≡ 0))
pair_detects true a b c ha hb p q = ground arith
pair_detects false a b c ha hb p q = ground arith

-- The digits left of a position, in the order of the checksum.
reverse_around :
    (xs zs ys : List ℕ) → reverse (xs ++ zs ++ ys) ≡ reverse ys ++ (reverse zs ++ reverse xs)
reverse_around xs zs ys = rw (reverse-append (xs ++ zs) ys, reverse-append xs zs)

-- The checksum of a number as that of the digits at a position, and a rest that does not depend on
-- them.
checksum-around :
    (xs zs ys : List ℕ)
    → checksum false (reverse (xs ++ zs ++ ys))
      ≡ checksum false (reverse ys)
        + (checksum (flag_after false (reverse ys)) (reverse zs)
            + checksum (flag_after (flag_after false (reverse ys)) (reverse zs)) (reverse xs))
checksum-around xs zs ys = rw (
  reverse_around xs zs ys,
  checksum-append false (reverse ys),
  checksum-append (flag_after false (reverse ys)) (reverse zs),
)

luhn_sum :
    (number : List ℕ)
    → IsDigits number
    → length number ≤ 28
    → luhn number ≡ true
    → checksum false (reverse number) % 10 ≡ 0
luhn_sum number digits fits valid = ground (arith, luhn-eq-checksum number digits fits)

digit_at : (xs ys : List ℕ) (a : ℕ) → IsDigits (xs ++ (a ∷ []) ++ ys) → a < 10
digit_at [] ys a h = h.0
digit_at (x ∷ xs) ys a h = digit_at xs ys a h.1

-- If a number of at most 28 digits passes the checksum, then a number that differs from it in one
-- digit fails it.
pub luhn_single_error :
    (xs ys : List ℕ) (a b : ℕ)
    → IsDigits (xs ++ (a ∷ []) ++ ys)
    → IsDigits (xs ++ (b ∷ []) ++ ys)
    → length (xs ++ (a ∷ []) ++ ys) ≤ 28
    → length (xs ++ (b ∷ []) ++ ys) ≤ 28
    → a ≢ b
    → luhn (xs ++ (a ∷ []) ++ ys) ≡ true
    → luhn (xs ++ (b ∷ []) ++ ys) ≡ false
unfolding checksum flag_after
luhn_single_error xs ys a b da db la lb ne valid = elim (Bool-cases (luhn (xs ++ (b ∷ []) ++ ys))) [
  | inr invalid ↦ invalid
  | inl other ↦ absurd (
      ne (
        weigh_detects f a b rest (digit_at xs ys a da) (digit_at xs ys b db)
          (residue a (luhn_sum _ da la valid)) (residue b (luhn_sum _ db lb other))))
]
  where
    f : Bool
    f = flag_after false (reverse ys)

    rest : ℕ
    rest = checksum false (reverse ys) + checksum (not f) (reverse xs)

    residue :
        (d : ℕ)
        → checksum false (reverse (xs ++ (d ∷ []) ++ ys)) % 10 ≡ 0
        → (rest + weigh f d) % 10 ≡ 0
    residue d h = omega (arith, checksum-around xs (d ∷ []) ys)

-- Two digits can be swapped unnoticed only if they are equal, or 0 and 9.
abbrev pub Swappable : ℕ → ℕ → Type 0
Swappable a b = (a ≡ b) ⊎ ((a ≡ 0) × (b ≡ 9)) ⊎ ((a ≡ 9) × (b ≡ 0))

digits_at : (xs ys : List ℕ) (a b : ℕ) → IsDigits (xs ++ (a ∷ b ∷ []) ++ ys) → (a < 10) × (b < 10)
digits_at [] ys a b h = (h.0, h.1.0)
digits_at (x ∷ xs) ys a b h = digits_at xs ys a b h.1

-- If a number of at most 28 digits passes the checksum, and still does after two neighbouring digits
-- are swapped, then these are equal, or 0 and 9.
pub luhn_swap_error :
    (xs ys : List ℕ) (a b : ℕ)
    → IsDigits (xs ++ (a ∷ b ∷ []) ++ ys)
    → IsDigits (xs ++ (b ∷ a ∷ []) ++ ys)
    → length (xs ++ (a ∷ b ∷ []) ++ ys) ≤ 28
    → length (xs ++ (b ∷ a ∷ []) ++ ys) ≤ 28
    → luhn (xs ++ (a ∷ b ∷ []) ++ ys) ≡ true
    → luhn (xs ++ (b ∷ a ∷ []) ++ ys) ≡ true
    → Swappable b a
unfolding checksum flag_after
luhn_swap_error xs ys a b da db la lb valid other =
    pair_detects f b a rest (digits_at xs ys a b da).1 (digits_at xs ys a b da).0
      (residue a b (luhn_sum _ da la valid)) (residue b a (luhn_sum _ db lb other))
  where
    f : Bool
    f = flag_after false (reverse ys)

    rest : ℕ
    rest = checksum false (reverse ys) + checksum (not (not f)) (reverse xs)

    residue :
        (c d : ℕ)
        → checksum false (reverse (xs ++ (c ∷ d ∷ []) ++ ys)) % 10 ≡ 0
        → (rest + (weigh f d + weigh (not f) c)) % 10 ≡ 0
    residue c d h = omega (arith, checksum-around xs (c ∷ d ∷ []) ys)

-- ===== src/Crypto/Aes/RoundTrip.antt =====
-- crypto/encryption_manager/managers/aes.rs: what is encrypted decrypts to itself.
use hyperswitch_card_vault.Common.{
  ◌%◌, ◌/◌, ℕ, zero, suc, ◌+◌, ◌*◌, ◌<◌, ◌≡◌, ◌∙◌, refl, sym, ap, true, false, [], ◌∷◌, ◌++◌,
  reverse, some, ok, length, length-append, All, All-reverse, length-reverse, ltb, ltb→lt,
  Bool-cases, inl, inr, arith,
}
use mathlib.Core.List.{reverse-reverse}
use hyperswitch_card_vault.Storage.Rows.{Bytes}
use hyperswitch_card_vault.Crypto.Aes.{
  nonce_len, le_bytes, of_le_bytes, current, from_bytes, advance, Aead, take, drop, Outcome,
  encrypt, decrypt,
}

abbrev pub IsByte : ℕ → Type 0
IsByte b = b < 256

le_bytes-of_le_bytes : (bs : Bytes) → All IsByte bs → le_bytes (length bs) (of_le_bytes bs) ≡ bs
unfolding le_bytes of_le_bytes
le_bytes-of_le_bytes [] h = refl
le_bytes-of_le_bytes (b ∷ bs) h =
    let x = of_le_bytes bs in
    let low : (b + 256 * x) % 256 ≡ b = omega (arith, h.0) in
    let high : (b + 256 * x) / 256 ≡ x = omega (arith, h.0) in
    rw (low, high, le_bytes-of_le_bytes bs h.1)

-- The nonce that a sequence made of twelve bytes uses is these bytes.
pub current-from_bytes :
    (bs : Bytes) → length bs ≡ nonce_len → All IsByte bs → current (from_bytes bs) ≡ bs
unfolding current from_bytes
current-from_bytes bs n h =
    ap (λ m. reverse (le_bytes m (of_le_bytes (reverse bs)))) (sym (length-reverse bs ∙ n))
    ∙ ap reverse (le_bytes-of_le_bytes (reverse bs) (All-reverse IsByte bs h))
    ∙ reverse-reverse bs

take-append : (n : ℕ) (s t : Bytes) → length s ≡ n → take n (s ++ t) ≡ s
take-append zero [] t h = refl
take-append zero (b ∷ s) t h = absurd (omega arith)
take-append (suc n) [] t h = absurd (omega arith)
take-append (suc n) (b ∷ s) t h = ap (λ r. b ∷ r) (take-append n s t (omega arith))

drop-append : (n : ℕ) (s t : Bytes) → length s ≡ n → drop n (s ++ t) ≡ t
drop-append zero [] t h = refl
drop-append zero (b ∷ s) t h = absurd (omega arith)
drop-append (suc n) [] t h = absurd (omega arith)
drop-append (suc n) (b ∷ s) t h = drop-append n s t (omega arith)

-- With a key that the cipher takes, a text that the cipher seals under the nonce of twelve random
-- bytes and opens again under it: `encrypt` answers an envelope that begins with the nonce, and
-- `decrypt` answers the text for it.
pub decrypt-encrypt :
    (aead : Aead) (secret random input sealed : Bytes)
    → aead.accepts_key secret ≡ true
    → aead.seal_in_place_append_tag secret random input ≡ some sealed
    → aead.open_within secret random sealed ≡ some input
    → length random ≡ nonce_len
    → All IsByte random
    → (encrypt aead secret (some random) input ≡ ok (random ++ sealed))
      × (decrypt aead secret (random ++ sealed) ≡ Outcome.returns (ok input))
unfolding encrypt decrypt advance
decrypt-encrypt aead secret random input sealed key seal opens n bytes =
    let nonce = current-from_bytes random n bytes in
    let long : ltb (length (random ++ sealed)) nonce_len ≡ false =
      elim (Bool-cases (ltb (length (random ++ sealed)) nonce_len)) [
        | inl short ↦ absurd (omega (arith, ltb→lt _ _ short, length-append random sealed, n))
        | inr long ↦ long
      ] in
    (
      simp (key, nonce, seal),
      simp (
        key,
        long,
        take-append nonce_len random sealed n,
        drop-append nonce_len random sealed n,
        nonce,
        opens,
      ),
    )

-- ===== src/Crypto/Aes.antt =====
-- crypto/encryption_manager/managers/aes.rs: the envelope, the nonce and then the sealed text. The
-- cipher and the random bytes are the crypto library's and parameters.
pub mod RoundTrip
mod Tests
use hyperswitch_card_vault.Common.{
  ℕ, zero, suc, ◌+◌, ◌*◌, ◌/◌, ◌%◌, ◌^◌, ◌<◌, ◌≡◌, ◌∙◌, refl, sym, ap, Bool, true, false, List, [],
  ◌∷◌, ◌++◌, reverse, Option, none, some, Result, ok, err, length, All, All-reverse, length-reverse,
  ltb, ltb→lt, if◌then◌else◌, arith,
}
use mathlib.Core.List.{reverse-reverse}
use hyperswitch_card_vault.Error.Types.{CryptoError}
use hyperswitch_card_vault.Storage.Rows.{Bytes}

abbrev pub nonce_len : ℕ
nonce_len = 12

-- The last bytes of a number, lowest first, and the number of such bytes.
unfoldable pub le_bytes : ℕ → ℕ → Bytes
le_bytes zero x = []
le_bytes (suc n) x = x % 256 ∷ le_bytes n (x / 256)

unfoldable pub of_le_bytes : Bytes → ℕ
of_le_bytes [] = 0
of_le_bytes (b ∷ bs) = b + 256 * of_le_bytes bs

-- NonceSequence: the 128-bit sequence number. The first four of its 16 bytes are cut off.
unfoldable pub current : ℕ → Bytes
current sequence_number = reverse (le_bytes nonce_len sequence_number)

unfoldable pub from_bytes : Bytes → ℕ
from_bytes bytes = of_le_bytes (reverse bytes)

-- The nonce that is used, and the sequence after it.
unfoldable pub advance : ℕ → Bytes × ℕ
advance sequence_number = (current sequence_number, (sequence_number + 1) % 2 ^ 128)

-- `ring::aead`: whether it takes a key, the sealing of a text with a key and a nonce, and the opening.
pub record Aead : Type 0 where
  pub accepts_key : Bytes → Bool
  pub seal_in_place_append_tag : Bytes → Bytes → Bytes → Option Bytes
  pub open_within : Bytes → Bytes → Bytes → Option Bytes

abbrev pub take : ℕ → Bytes → Bytes
take zero bs = []
take (suc n) [] = []
take (suc n) (b ∷ bs) = b ∷ take n bs

abbrev pub drop : ℕ → Bytes → Bytes
drop zero bs = bs
drop (suc n) [] = []
drop (suc n) (b ∷ bs) = drop n bs

-- What a function that may panic ends in.
pub data Outcome (A : Type 0) : Type 0 where
  returns : Result CryptoError A → Outcome A
  panics : Outcome A

module _ (aead : Aead) (secret : Bytes) where
  -- The bytes of the random number generator are an argument, `none` where it fails.
  unfoldable pub encrypt : Option Bytes → Bytes → Result CryptoError Bytes
  encrypt none input = err CryptoError.encryption_error
  encrypt (some random) input =
      let nonce_sequence = from_bytes random in
      let current_nonce = current nonce_sequence in
      if aead.accepts_key secret
      then elim (aead.seal_in_place_append_tag secret (advance nonce_sequence).0 input) [
        | none ↦ err CryptoError.encryption_error
        | some sealed ↦ ok (current_nonce ++ sealed)
      ]
      else err CryptoError.encryption_error

  -- The slice of the first twelve bytes panics on a shorter input.
  unfoldable pub decrypt : Bytes → Outcome Bytes
  decrypt input =
      if aead.accepts_key secret
      then (if ltb (length input) nonce_len
          then Outcome.panics
          else elim (aead.open_within secret (advance (from_bytes (take nonce_len input))).0
              (drop nonce_len input)) [
                | none ↦ Outcome.returns (err CryptoError.decryption_error)
                | some result ↦ Outcome.returns (ok result)
              ])
      else Outcome.returns (err CryptoError.decryption_error)

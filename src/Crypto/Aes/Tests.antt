-- ===== src/Crypto/Aes/Tests.antt =====
-- The envelope with a cipher that appends the nonce to the text.
use hyperswitch_card_vault.Common.{◌≡◌, refl, true, [], ◌∷◌, ◌++◌, some, ok, arith}
use hyperswitch_card_vault.Storage.Rows.{Bytes}
use hyperswitch_card_vault.Crypto.Aes.{Aead, Outcome, encrypt, decrypt, take}
use hyperswitch_card_vault.Crypto.Aes.RoundTrip.{decrypt-encrypt}

abbrev appends : Aead
appends = record {
  accepts_key = λ secret. true;
  seal_in_place_append_tag = λ secret nonce input. some (input ++ nonce);
  open_within = λ secret nonce sealed. some (take 2 sealed);
}

abbrev random : Bytes
random = 1 ∷ 2 ∷ 3 ∷ 4 ∷ 5 ∷ 6 ∷ 7 ∷ 8 ∷ 9 ∷ 10 ∷ 11 ∷ 255 ∷ []

decrypt-encrypt_example :
    (encrypt appends [] (some random) (7 ∷ 8 ∷ []) ≡ ok (random ++ (7 ∷ 8 ∷ random)))
    × (decrypt appends [] (random ++ (7 ∷ 8 ∷ random)) ≡ Outcome.returns (ok (7 ∷ 8 ∷ [])))
decrypt-encrypt_example =
    decrypt-encrypt appends [] random (7 ∷ 8 ∷ []) (7 ∷ 8 ∷ random) refl refl refl (omega arith)
      (ground arith)

-- An input that is shorter than a nonce.
short_input : decrypt appends [] (1 ∷ []) ≡ Outcome.panics
unfolding decrypt
short_input = refl

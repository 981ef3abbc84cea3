-- ===== src/Routes/Laws/Sealing.antt =====
-- The manager of the internal key manager opens what it sealed: internal_keymanager.rs over aes.rs.
use hyperswitch_card_vault.Common.{◌≡◌, refl, true, ◌++◌, Option, some, length, All}
use hyperswitch_card_vault.Storage.Rows.{Bytes}
use hyperswitch_card_vault.Storage.Merchants.{settle}
use hyperswitch_card_vault.Crypto.Aes.{Aead, nonce_len}
use hyperswitch_card_vault.Crypto.Aes.RoundTrip.{IsByte, decrypt-encrypt}
use hyperswitch_card_vault.KeyManager.Internal.{from_secret_key}
use hyperswitch_card_vault.Routes.Laws.{IsManager}

-- With a key that the cipher takes, a cipher that opens what it sealed with the key, and a generator
-- that gives twelve bytes in every state: the manager that the internal key manager makes of the key
-- opens in every state what it sealed, and sealing leaves the state as it is.
pub from_secret_key-IsManager :
    {W S : Type 0} (aead : Aead) (random : W → Option Bytes) (key : Bytes) (view : W → S)
    → aead.accepts_key key ≡ true
    → ((nonce content : Bytes)
        → (sealed : Bytes) × (aead.seal_in_place_append_tag key nonce content ≡ some sealed)
          × (aead.open_within key nonce sealed ≡ some content))
    → ((w : W)
        → (bytes : Bytes) × (random w ≡ some bytes) × (length bytes ≡ nonce_len) × All IsByte bytes)
    → IsManager (from_secret_key aead random key) view
unfolding from_secret_key settle
from_secret_key-IsManager aead random key view accepts seals gives = record {
  seals = λ content w.
      let (bytes, given, long, is_bytes) = gives w in
      let (sealed, closed, opened) = seals bytes content in
      let (encrypts, decrypts) =
        decrypt-encrypt aead key bytes content sealed accepts closed opened long is_bytes in
      (bytes ++ sealed, w, simp (given, encrypts), refl, λ v. simp decrypts);
}

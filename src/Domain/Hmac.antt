-- ===== src/Domain/Hmac.antt =====
-- crypto/hash_manager/managers/sha.rs: the HMAC of an HMAC. `sign` is the crypto library's.
use hyperswitch_card_vault.Common.{ℕ, zero, suc, ◌-◌, Result, ok}
use hyperswitch_card_vault.Error.Types.{CryptoError}
use hyperswitch_card_vault.Storage.Rows.{Bytes}

module _ (sign : Bytes → Bytes → Bytes) (key : Bytes) where
  unfoldable pub sign_again : ℕ → Bytes → Bytes
  sign_again zero input = input
  sign_again (suc times) input = sign_again times (sign key input)

  -- HmacSha512::<n>::encode: the fold runs over `0..=n - 1`, and `n` is not 0.
  unfoldable pub encode : ℕ → Bytes → Result CryptoError Bytes
  encode n input = ok (sign_again (suc (n - 1)) (sign key input))

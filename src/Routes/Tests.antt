-- ===== src/Routes/Tests.antt =====
-- Runs of the data routes on databases of one row, and a key manager that keeps texts as they are.
mod Vaults
mod Postgres
mod Cards
use hyperswitch_card_vault.Common.{
  refl, [], none, some, ℕ, ◌≡◌, ◌+◌, ◌*◌, ◌≤◌, ◌<◌, ◌↔◌, ◌∷◌, true, false, ok, err, raised, codes,
  Exec, ltb, if◌then◌else◌, arith,
}
use hyperswitch_card_vault.Storage.Rows.{Bytes, Time}
use hyperswitch_card_vault.Error.Types.{ApiError, VaultDbError}
use hyperswitch_card_vault.Routes.Data.{Runtime, check_expiry}
use hyperswitch_card_vault.Routes.Types.{deserialize_ttl, validate_ttl}
use hyperswitch_card_vault.Routes.Laws.{IsManager}
use hyperswitch_card_vault.Routes.Laws.Ttl.{ttl_lem}
use hyperswitch_card_vault.Routes.Laws.Sealing.{from_secret_key-IsManager}
use hyperswitch_card_vault.Crypto.Aes.{Aead}
use hyperswitch_card_vault.KeyManager.Internal.{from_secret_key}

abbrev W : Type 0
W = Unit {0}

abbrev runtime : Runtime ℕ
runtime = record {
  now = λ w. w;
  generate_uuid = λ w. codes "uuid";
  generate_nano_id = λ w. codes "nano";
  spawn = λ task w. (task w).1;
  is_whitespace = λ c. false;
}

abbrev delete : Exec ℕ VaultDbError ℕ
delete w = (ok 1, w)

-- Five seconds from 10, where the last time is 40; read at 50.
ttl_lem_example :
    (deserialize_ttl 40 10 (some 5) ≡ some (some 40))
    × ((validate_ttl 30 (some 40) ≡ ok tt) ↔ ((30 < 10 + 5 * 1000000000) × (30 < 40)))
    × (((check_expiry runtime delete (some 40) 50).0 ≡ err (raised ApiError.not_found_error))
        ↔ (40 < 50))
    × ((check_expiry runtime delete (some 40) 50).1
        ≡ (if ltb 40 50 then runtime.spawn delete 50 else 50))
ttl_lem_example = ttl_lem runtime delete 50 40 10 30 5 (omega arith)

-- A cipher that leaves the text as it is.
abbrev plain : Aead
plain = record {
  accepts_key = λ secret. true;
  seal_in_place_append_tag = λ secret nonce input. some input;
  open_within = λ secret nonce sealed. some sealed;
}

abbrev random : Bytes
random = 1 ∷ 2 ∷ 3 ∷ 4 ∷ 5 ∷ 6 ∷ 7 ∷ 8 ∷ 9 ∷ 10 ∷ 11 ∷ 255 ∷ []

from_secret_key-IsManager_example :
    IsManager (from_secret_key plain (λ (u : W). some random) (1 ∷ [])) (λ (u : W). u)
from_secret_key-IsManager_example =
    from_secret_key-IsManager plain (λ (u : W). some random) (1 ∷ []) (λ (u : W). u) refl
      (λ nonce content. (content, refl, refl)) (λ w. (random, refl, omega arith, ground arith))

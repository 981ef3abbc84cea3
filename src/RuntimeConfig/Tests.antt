-- ===== src/RuntimeConfig/Tests.antt =====
-- A run of the fetches of a manager.
use hyperswitch_card_vault.Common.{◌≡◌, ℕ, true, [], ◌∷◌, Option, none, some, Text, codes}
use hyperswitch_card_vault.RuntimeConfig.{Enabled, RuntimeConfigState, Response, prefetch_all, get}
use hyperswitch_card_vault.RuntimeConfig.LastGood.{last_known_good}

abbrev state : Enabled
state = record {
  endpoint_url = codes "http://c/";
  endpoint_path = codes "/v1";
  api_key = codes "k";
  cache = none;
}

abbrev answers : ℕ → Text → Text → Text → Option Response
answers status value url key = some (record { status = status; json_value = some value })

-- A failure, a good response, one that is no success and one that is not received.
last_known_good_example :
    get {T = Text}
      (λ raw. some raw)
      (prefetch_all
        (λ t. true)
        ((λ url key. none)
          ∷ answers 200 (codes "a")
          ∷ answers 500 (codes "b")
          ∷ (λ url key. none)
          ∷ [])
        (RuntimeConfigState.enabled state))
    ≡ some (codes "a")
last_known_good_example =
    last_known_good (λ t. true) (λ raw. some raw)
      ((λ url key. none)
        ∷ answers 200 (codes "a")
        ∷ answers 500 (codes "b")
        ∷ (λ url key. none)
        ∷ [])
      state

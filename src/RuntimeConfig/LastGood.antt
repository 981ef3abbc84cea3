-- ===== src/RuntimeConfig/LastGood.antt =====
-- The served configuration is that of the last good response: runtime_config.rs.
use hyperswitch_card_vault.Common.{
  leb, ◌&&◌, ◌≡◌, ◌∙◌, refl, sym, ap, Bool, List, [], ◌∷◌, Option, none, some, Text, Result-cases,
  ok, err, inl, inr, if◌then◌else◌, arith,
}
use hyperswitch_card_vault.RuntimeConfig.{
  Enabled, RuntimeConfigState, Response, fetch_config, checked_value, prefetch, prefetch_all, get,
  config_url,
}

-- The last of the bodies that are good, or else the first one.
abbrev pub last_good : Option Text → List (Option Text) → Option Text
last_good body [] = body
last_good body (none ∷ bodies) = last_good body bodies
last_good body (some b ∷ bodies) = last_good (some b) bodies

module _ (is_json : Text → Bool) where
  -- The body of a response that is good: it was received with a status of success, and the envelope has
  -- a value that is JSON.
  abbrev pub good : Option Response → Option Text
  good none = none
  good (some response) = elim response.json_value [
    | none ↦ none
    | some value ↦
        if (leb 200 response.status && leb response.status 299) && is_json value
        then some value
        else none
  ]

  abbrev pub goods : Text → Text → List (Text → Text → Option Response) → List (Option Text)
  goods url key [] = []
  goods url key (client ∷ clients) = good (client url key) ∷ goods url key clients

  fetch_config-good :
      (r : Option Response)
      → (elim (fetch_config is_json r) [ ok body ↦ some body | err _ ↦ none ]) ≡ good r
  unfolding fetch_config checked_value
  fetch_config-good none = refl
  fetch_config-good (some response) = ground arith

  -- A round keeps the configuration or takes a good one.
  prefetch-last_good :
      (client : Text → Text → Option Response) (state : Enabled)
      → let url = config_url state.endpoint_url state.endpoint_path in
        prefetch is_json client (RuntimeConfigState.enabled state)
        ≡ RuntimeConfigState.enabled
            (record state { cache = last_good state.cache (good (client url state.api_key) ∷ []) })
  unfolding prefetch
  prefetch-last_good client state =
      let r = client (config_url state.endpoint_url state.endpoint_path) state.api_key in
      elim (Result-cases (fetch_config is_json r)) [
        | inl (body, e) ↦
            let g : good r ≡ some body = sym (fetch_config-good r) ∙ rw e refl in
            rw g (rw (prefetch, e))
        | inr (error, e) ↦
            let g : good r ≡ none = sym (fetch_config-good r) ∙ rw e refl in rw g (rw (prefetch, e))
      ]

  last_good-cons :
      (body g : Option Text) (gs : List (Option Text))
      → last_good (last_good body (g ∷ [])) gs ≡ last_good body (g ∷ gs)
  last_good-cons body none gs = refl
  last_good-cons body (some b) gs = refl

  prefetch_all-last_good :
      (clients : List (Text → Text → Option Response)) (state : Enabled)
      → prefetch_all is_json clients (RuntimeConfigState.enabled state)
        ≡ RuntimeConfigState.enabled (record state {
          cache =
              last_good state.cache
                (goods (config_url state.endpoint_url state.endpoint_path) state.api_key clients);
        })
  unfolding prefetch_all
  prefetch_all-last_good [] state = refl
  prefetch_all-last_good (client ∷ clients) state =
      let url = config_url state.endpoint_url state.endpoint_path in
      let g = good (client url state.api_key) in
      ap (prefetch_all is_json clients) (prefetch-last_good client state)
      ∙ prefetch_all-last_good clients (record state { cache = last_good state.cache (g ∷ []) })
      ∙ ap (λ body. RuntimeConfigState.enabled (record state { cache = body }))
          (last_good-cons state.cache g (goods url state.api_key clients))

  -- After any rounds of the background task, whatever the endpoint answers at each, an enabled manager
  -- serves the reading of the body of the last good response, or of the one that it had before where
  -- there was none; a response is good if its status is one of success and its envelope has a value
  -- that is JSON.
  pub last_known_good :
      {T : Type 0} (from_json : Text → Option T) (clients : List (Text → Text → Option Response))
      (state : Enabled)
      → get from_json (prefetch_all is_json clients (RuntimeConfigState.enabled state))
        ≡ elim (last_good state.cache
            (goods (config_url state.endpoint_url state.endpoint_path) state.api_key clients)) [
              | none ↦ none
              | some raw ↦ from_json raw
            ]
  unfolding get
  last_known_good from_json clients state = rw (prefetch_all-last_good clients state) refl

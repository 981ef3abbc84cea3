-- ===== src/RuntimeConfig.antt =====
-- runtime_config.rs: the fetching of the runtime configuration, and the last good one that is served.
-- The HTTP client and JSON are parameters, the response of a request is an argument; the background
-- task is a sequence of fetches.
pub mod LastGood
mod Tests
use hyperswitch_card_vault.Common.{
  ℕ, ◌++◌, ◌&&◌, Bool, true, false, List, [], ◌∷◌, reverse, Option, none, some, Text, codes, Result,
  ok, err, leb, ◌==◌, if◌then◌else◌,
}

-- The state of an enabled manager but for its HTTP client and interval.
pub record Enabled : Type 0 where
  pub endpoint_url : Text
  pub endpoint_path : Text
  pub api_key : Text
  pub cache : Option Text

pub data RuntimeConfigState : Type 0 where
  disabled : RuntimeConfigState
  enabled : Enabled → RuntimeConfigState

-- The response of the endpoint: its status, and the `value` of the envelope that its body reads as.
pub record Response : Type 0 where
  pub status : ℕ
  pub json_value : Option Text

pub data ConfigurationError : Type 0 where
  request_failed non_success malformed_envelope malformed_value : ConfigurationError

unfoldable pub trim_start_matches : ℕ → Text → Text
trim_start_matches c [] = []
trim_start_matches c (x ∷ xs) =
    let rest = trim_start_matches c xs in if x == c then rest else x ∷ xs

unfoldable pub trim_end_matches : ℕ → Text → Text
unfolding trim_start_matches
trim_end_matches c text = reverse (trim_start_matches c (reverse text))

-- The URL of `fetch_config`.
unfoldable pub config_url : Text → Text → Text
config_url endpoint_url endpoint_path =
    trim_end_matches b'/' endpoint_url ++ (b'/' ∷ trim_start_matches b'/' endpoint_path)

-- `is_json` is whether a text is JSON. A response is `none` where the request failed.
module _ (is_json : Text → Bool) where
  unfoldable pub checked_value : Option Text → Result ConfigurationError Text
  checked_value none = err ConfigurationError.malformed_envelope
  checked_value (some value) =
      if is_json value then ok value else err ConfigurationError.malformed_value

  -- fetch_config, from the response on.
  unfoldable pub fetch_config : Option Response → Result ConfigurationError Text
  unfolding checked_value
  fetch_config none = err ConfigurationError.request_failed
  fetch_config (some response) =
      if leb 200 response.status && leb response.status 299
      then checked_value response.json_value
      else err ConfigurationError.non_success

  -- `client` answers a GET of a URL with a key.
  unfoldable pub prefetch :
      (Text → Text → Option Response) → RuntimeConfigState → RuntimeConfigState
  prefetch client RuntimeConfigState.disabled = RuntimeConfigState.disabled
  prefetch client (RuntimeConfigState.enabled state) =
      elim (fetch_config
        (client (config_url state.endpoint_url state.endpoint_path) state.api_key)) [
          | ok body ↦ RuntimeConfigState.enabled (record state { cache = some body })
          | err _ ↦ RuntimeConfigState.enabled state
        ]

  -- The background task: what the endpoint answers at each round.
  unfoldable pub prefetch_all :
      List (Text → Text → Option Response) → RuntimeConfigState → RuntimeConfigState
  unfolding prefetch
  prefetch_all [] state = state
  prefetch_all (client ∷ clients) state = prefetch_all clients (prefetch client state)

-- `from_json` is the reading of a configuration.
unfoldable pub get : {T : Type 0} → (Text → Option T) → RuntimeConfigState → Option T
get from_json RuntimeConfigState.disabled = none
get from_json (RuntimeConfigState.enabled state) = elim state.cache [
  | none ↦ none
  | some raw ↦ from_json raw
]

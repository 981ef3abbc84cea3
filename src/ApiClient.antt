-- ===== src/ApiClient.antt =====
-- api_client.rs: the sending of a request. The client, URLs and headers are the library's (`reqwest`):
-- `T` is a body that becomes JSON, `B` a response. Metrics, which the purpose is for, are left out.
use hyperswitch_card_vault.Common.{
  ℕ, List, [], ◌∷◌, Option, none, some, Text, Result, ok, err, ok_or, map_ok, Exec, pure, ◌>>=◌,
  ◌==◌, if◌then◌else◌,
}
use hyperswitch_card_vault.Error.Remote.{ApiClientError}

pub data Method : Type 0 where
  get post : Method

pub record HttpClient (W T B : Type 0) : Type 0 where
  pub parse_url : Text → Option Text
  pub parse_header_name : Text → Option Text
  pub parse_header_value : Text → Option Text
  -- No response where the request could not be sent.
  pub send : Method → Text → List (Text × Text) → Option T → W → Option B × W
  pub status : B → ℕ
  pub bytes : B → Option (List ℕ)

module _ {W T B : Type 0} (client : HttpClient W T B) where
  unfoldable pub parse_header : Text × Text → Result ApiClientError (Text × Text)
  parse_header (name, value) = elim (client.parse_header_name name) [
    | none ↦ err ApiClientError.header_map_construction_failed
    | some header_name ↦ elim (client.parse_header_value value) [
      | none ↦ err ApiClientError.header_map_construction_failed
      | some header_value ↦ ok (header_name, header_value)
    ]
  ]

  -- The headers are a set, with the order of an iteration.
  unfoldable pub construct_header_map :
      List (Text × Text) → Result ApiClientError (List (Text × Text))
  unfolding parse_header
  construct_header_map [] = ok []
  construct_header_map (header ∷ headers) = elim (parse_header header) [
    | err e ↦ err e
    | ok parsed ↦ map_ok (λ rest. parsed ∷ rest) (construct_header_map headers)
  ]

  -- An error has the bytes of the response, if they can be read.
  unfoldable pub with_bytes : (List ℕ → ApiClientError) → B → Result ApiClientError B
  with_bytes error response = elim (client.bytes response) [
    | none ↦ err ApiClientError.response_decoding_failed
    | some bytes ↦ err (error bytes)
  ]

  -- The match on the status.
  unfoldable pub checked : B → Result ApiClientError B
  unfolding with_bytes
  checked response =
      let status = client.status response in
      if status == 200
      then ok response
      else if status == 500
      then with_bytes ApiClientError.internal_server_error response
      else if status == 400
      then with_bytes ApiClientError.bad_request response
      else if status == 401
      then with_bytes ApiClientError.unauthorized response
      else with_bytes (ApiClientError.unexpected status) response

  -- The body of a request: a GET has none.
  unfoldable pub body_for : Method → T → Option T
  body_for Method.get request_body = none
  body_for Method.post request_body = some request_body

  unfoldable pub send_request :
      Text → Text → List (Text × Text) → Method → T → Exec W ApiClientError B
  unfolding construct_header_map checked body_for
  send_request purpose url headers method request_body = do
    parsed ← pure (ok_or ApiClientError.url_encoding_failed (client.parse_url url))
    header_map ← pure (construct_header_map headers)
    response ← (λ w.
        let (sent, w') = client.send method parsed header_map (body_for method request_body) w in
        (ok_or ApiClientError.request_not_sent sent, w'))
    pure (checked response)

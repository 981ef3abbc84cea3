-- ===== src/KeyManager/External/Statuses.antt =====
-- What the status of the external key manager's response is to the caller.
use hyperswitch_card_vault.Common.{ℕ, ◌++◌, ◌≡◌, ◌↔◌, List, some, Text, codes, ok, err, arith}
use hyperswitch_card_vault.Error.Remote.{KeyManagerError}
use hyperswitch_card_vault.Error.KeyManager.{
  key_creation_of_api_client, key_manager_of_key_creation,
}
use hyperswitch_card_vault.ApiClient.{
  Method, construct_header_map, checked, send_request, with_bytes, body_for,
}
use hyperswitch_card_vault.KeyManager.{get_url, get_url_required}
use hyperswitch_card_vault.KeyManager.External.{
  Service, DataKeyCreateRequest, DataKeyCreateResponse, RequestBody, create_key_in_key_manager,
  call_encryption_service, get_key_manager_header,
}

module _ {W B : Type 0} (state : Service W B) where
  module _ (request : DataKeyCreateRequest) (w w' : W) (url parsed : Text)
      (headers : List (Text × Text)) (response : B)
      (configured : get_url state.external_key_manager ≡ some url)
      (parses : state.api_client.parse_url (url ++ codes "/key/create") ≡ some parsed)
      (named : construct_header_map state.api_client (get_key_manager_header state) ≡ ok headers)
      (sent : state.api_client.send Method.post parsed headers
          (some (RequestBody.key_create request))
          w
        ≡ (some response, w')) where
    -- For a key manager with a URL and headers that are well-formed, which gives a response: the creation
    -- of a key gives a key exactly where the status is 200 and the body reads as that key, and is an
    -- authentication failure exactly where the status is 401 and the body can be read.
    pub create_key_status :
        (key : DataKeyCreateResponse)
        → ((create_key_in_key_manager state request w).1 ≡ w')
          × (((create_key_in_key_manager state request w).0 ≡ ok key)
              ↔ ((state.api_client.status response ≡ 200) × (state.read_key response ≡ some key)))
          × (((create_key_in_key_manager state request w).0 ≡ err KeyManagerError.unauthorized) ↔ (
              (state.api_client.status response ≡ 401)
              × ((b : List ℕ) × (state.api_client.bytes response ≡ some b))))
    unfolding create_key_in_key_manager call_encryption_service get_url_required send_request
        checked with_bytes body_for key_manager_of_key_creation key_creation_of_api_client
    create_key_status key =
        rw (configured, parses, named, sent)
          (
            ground arith,
            (λ h. ground (arith, h), λ h. ground (arith, h)),
            (λ h. ground (arith, h), λ h. ground (arith, h)),
          )

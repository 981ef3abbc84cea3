-- ===== src/Crypto/Jwe/Sealing.antt =====
-- What one party seals the other opens, and so through the middleware: jw.rs and middleware.rs.
use hyperswitch_card_vault.Common.{ℕ, ◌≡◌, Option, some, ok, err, Text}
use hyperswitch_card_vault.Error.Types.{CryptoError}
use hyperswitch_card_vault.Error.FromCrypto.{api_of_crypto}
use hyperswitch_card_vault.Storage.Rows.{Bytes}
use hyperswitch_card_vault.Crypto.Jwe.{
  JwsBody, JweBody, Jose, JweEncryption, get_dotted_jws, get_dotted_jwe, encrypt, decrypt,
  middleware, keys, payload_header, jws_sign_payload, encrypt_jwe, decrypt_jwe, verify_sign,
}
use hyperswitch_card_vault.Crypto.Jwe.Dotted.{
  JwsSegments, JweSegments, from_dotted_str-get_dotted_jws, from_str-get_dotted_jwe,
}

-- The keys of the two parties belong together, each for the algorithm that the other uses: what the
-- library signs with the key of the first it verifies with that of the second, what it encrypts it
-- decrypts, both in dotted form. The bytes of a text read back as it, and so does the JSON of a signed
-- body, which is text.
pub record IsJose {K : Type 0} (jose : Jose K) (sender receiver : JweEncryption) : Type 0 where
  pub signer : K
  pub verifier : K
  pub encrypter : K
  pub decrypter : K
  pub signer_made : jose.signer_from_pem sender.private_key ≡ some signer
  pub verifier_made : jose.verifier_from_pem receiver.public_key ≡ some verifier
  pub encrypter_made :
      jose.encrypter_from_pem sender.encryption_algo sender.public_key ≡ some encrypter
  pub decrypter_made :
      jose.decrypter_from_pem receiver.decryption_algo receiver.private_key ≡ some decrypter
  pub signs :
      (payload : Bytes)
      → (jws : JwsBody) × (jose.jws_serialize_compact payload signer ≡ some (get_dotted_jws jws))
        × JwsSegments jws
        × (jose.jws_deserialize_compact (get_dotted_jws jws) verifier ≡ some payload)
  pub encrypts :
      (json : Bytes)
      → (jwe : JweBody) × (jose.jwe_serialize_compact json payload_header encrypter
          ≡ some (get_dotted_jwe jwe))
        × JweSegments jwe
        × (jose.jwe_deserialize_compact (get_dotted_jwe jwe) decrypter ≡ some json)
  pub reads_text : (text : Text) → jose.from_utf8 (jose.as_bytes text) ≡ some text
  pub writes :
      (jws : JwsBody)
      → JwsSegments jws
      → (json : Text) × (jose.jws_to_vec jws ≡ some (jose.as_bytes json))
        × (jose.jws_from_str json ≡ some jws)

module _ {K : Type 0} (jose : Jose K) where
  sealed-opens :
      (sender receiver : JweEncryption) (keys : IsJose jose sender receiver) (text : Text)
      → (jwe : JweBody) × (encrypt jose sender (jose.as_bytes text) ≡ ok jwe)
        × (decrypt jose receiver jwe ≡ ok (jose.as_bytes text))
  unfolding encrypt decrypt jws_sign_payload encrypt_jwe decrypt_jwe verify_sign
  sealed-opens sender receiver keys text =
      let (jws, signed, signed_segments, verified) = keys.signs (jose.as_bytes text) in
      let (json, written, read) = keys.writes jws signed_segments in
      let (jwe, encrypted, segments, decrypted) = keys.encrypts (jose.as_bytes json) in
      (
        jwe,
        simp (
          keys.signer_made,
          signed,
          from_dotted_str-get_dotted_jws jws signed_segments,
          written,
          keys.encrypter_made,
          encrypted,
          from_str-get_dotted_jwe jwe segments,
        ),
        simp (
          keys.decrypter_made,
          decrypted,
          keys.reads_text json,
          read,
          keys.verifier_made,
          verified,
          keys.reads_text text,
        ),
      )

  module _ {W : Type 0} (locker_private_key public_key : Text)
      (next : Bytes → W → (ℕ × Option Bytes) × W) where
    -- With keys of a client and of the vault that belong together both ways, each for the algorithm that
    -- the other uses: a client that seals a request of text, for which the handler answers a status and a
    -- body of text, has from the middleware that status and a sealed body, which opens to the handler's;
    -- and the handler was run on the request as it was before the sealing.
    pub middleware_round_trip :
        (client : JweEncryption) (asks : IsJose jose client (keys locker_private_key public_key))
        (answers : IsJose jose (keys locker_private_key public_key) client) (request body : Text)
        (status : ℕ) (w w' : W)
        → next (jose.as_bytes request) w ≡ ((status, some (jose.as_bytes body)), w')
        → (sealed answer : JweBody) × (encrypt jose client (jose.as_bytes request) ≡ ok sealed)
          × (middleware jose locker_private_key public_key next sealed w
              ≡ (ok (status, answer), w'))
          × (decrypt jose client answer ≡ ok (jose.as_bytes body))
    unfolding middleware
    middleware_round_trip client asks answers request body status w w' handled =
        let vault = keys locker_private_key public_key in
        let (sealed, seals, opens) = sealed-opens client vault asks request in
        let (answer, answers_sealed, answer_opens) = sealed-opens vault client answers body in
        (sealed, answer, seals, simp (opens, handled, answers_sealed), answer_opens)

    -- A body that does not open is refused, and no handler is run.
    pub middleware-refused :
        (body : JweBody) (e : CryptoError) (w : W)
        → decrypt jose (keys locker_private_key public_key) body ≡ err e
        → middleware jose locker_private_key public_key next body w ≡ (err (api_of_crypto e), w)
    unfolding middleware
    middleware-refused body e w h = simp h

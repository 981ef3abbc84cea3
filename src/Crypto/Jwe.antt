-- ===== src/Crypto/Jwe.antt =====
-- crypto/encryption_manager/managers/jw.rs, and middleware.rs: a body is signed, and the signature's
-- JSON is encrypted. Keys, signatures and ciphertexts are the library's (`josekit`), and so are JSON and
-- UTF-8.
pub mod Dotted
pub mod Sealing
mod Tests
use hyperswitch_card_vault.Common.{
  ℕ, ◌++◌, List, [], ◌∷◌, Option, none, some, Text, codes, Result, ok, err, ok_or, map_err, Exec,
  pure, ◌==◌, if◌then◌else◌, ◌>>=◌, map_error,
}
use hyperswitch_card_vault.Error.Types.{ApiError, CryptoError}
use hyperswitch_card_vault.Error.FromCrypto.{api_of_crypto}
use hyperswitch_card_vault.Storage.Rows.{Bytes}

pub record JwsBody : Type 0 where
  pub header : Text
  pub payload : Text
  pub signature : Text

pub record JweBody : Type 0 where
  pub header : Text
  pub iv : Text
  pub encrypted_payload : Text
  pub tag : Text
  pub encrypted_key : Text

abbrev pub dot : ℕ
dot = b'.'

-- A character before the first segment.
unfoldable pub prepend : ℕ → List Text → List Text
prepend c [] = (c ∷ []) ∷ []
prepend c (s ∷ ss) = (c ∷ s) ∷ ss

-- str::split at a character
unfoldable pub split : ℕ → Text → List Text
unfolding prepend
split at [] = [] ∷ []
split at (c ∷ cs) = let rest = split at cs in if c == at then [] ∷ rest else prepend c rest

-- The first segments; what is after them is not read.
unfoldable pub jws_of_segments : List Text → Option JwsBody
jws_of_segments (header ∷ payload ∷ signature ∷ rest) =
    some (record { header = header; payload = payload; signature = signature })
jws_of_segments _ = none

unfoldable pub jwe_of_segments : List Text → Option JweBody
jwe_of_segments (header ∷ encrypted_key ∷ iv ∷ encrypted_payload ∷ tag ∷ rest) = some (record {
  header = header;
  iv = iv;
  encrypted_payload = encrypted_payload;
  tag = tag;
  encrypted_key = encrypted_key;
})
jwe_of_segments _ = none

-- JwsBody::from_dotted_str
unfoldable pub from_dotted_str : Text → Option JwsBody
unfolding split jws_of_segments
from_dotted_str input = jws_of_segments (split dot input)

-- JweBody::from_str
unfoldable pub from_str : Text → Option JweBody
unfolding split jwe_of_segments
from_str input = jwe_of_segments (split dot input)

unfoldable pub get_dotted_jws : JwsBody → Text
get_dotted_jws self = self.header ++ (dot ∷ (self.payload ++ (dot ∷ self.signature)))

unfoldable pub get_dotted_jwe : JweBody → Text
get_dotted_jwe self =
    self.header
    ++ (dot
        ∷ (self.encrypted_key
            ++ (dot ∷ (self.iv ++ (dot ∷ (self.encrypted_payload ++ (dot ∷ self.tag)))))))

-- The algorithms of `RsaesJweAlgorithm` that the code names.
pub data JweAlgorithm : Type 0 where
  rsa_oaep rsa_oaep_256 : JweAlgorithm

pub record JweHeader : Type 0 where
  pub content_encryption : Text
  pub token_type : Text

-- `josekit`, with JSON and UTF-8: `K` has the signers (of RS256), verifiers, encrypters and decrypters
-- that it makes of the text of a key.
pub record Jose (K : Type 0) : Type 0 where
  pub signer_from_pem : Text → Option K
  pub verifier_from_pem : Text → Option K
  pub encrypter_from_pem : JweAlgorithm → Text → Option K
  pub decrypter_from_pem : JweAlgorithm → Text → Option K
  pub jws_serialize_compact : Bytes → K → Option Text
  pub jws_deserialize_compact : Text → K → Option Bytes
  pub jwe_serialize_compact : Bytes → JweHeader → K → Option Text
  pub jwe_deserialize_compact : Text → K → Option Bytes
  pub from_utf8 : Bytes → Option Text
  pub as_bytes : Text → Bytes
  pub jws_to_vec : JwsBody → Option Bytes
  pub jws_from_str : Text → Option JwsBody

pub record JweEncryption : Type 0 where
  pub private_key : Text
  pub public_key : Text
  pub encryption_algo : JweAlgorithm
  pub decryption_algo : JweAlgorithm

infixl 5 ◌then_ok◌
abbrev ◌then_ok◌ : {E A B : Type 0} → Result E A → (A → Result E B) → Result E B
ok a then_ok f = f a
err e then_ok f = err e

abbrev pub payload_header : JweHeader
payload_header = record { content_encryption = codes "A256GCM"; token_type = codes "JWT" }

-- The keys of the middleware, from the vault's private key and the tenant's public key.
unfoldable pub keys : Text → Text → JweEncryption
keys locker_private_key public_key = record {
  private_key = locker_private_key;
  public_key = public_key;
  encryption_algo = JweAlgorithm.rsa_oaep;
  decryption_algo = JweAlgorithm.rsa_oaep_256;
}

module _ {K : Type 0} (jose : Jose K) where
  unfoldable pub jws_sign_payload : Bytes → Text → Result CryptoError Text
  jws_sign_payload payload private_key =
      ok_or CryptoError.jw_error (jose.signer_from_pem private_key) then_ok λ signer.
      ok_or CryptoError.jw_error (jose.jws_serialize_compact payload signer)

  unfoldable pub encrypt_jwe : Bytes → Text → JweAlgorithm → Result CryptoError Text
  encrypt_jwe payload public_key alg =
      ok_or CryptoError.jw_error (jose.encrypter_from_pem alg public_key) then_ok λ encrypter.
      ok_or CryptoError.jw_error (jose.jwe_serialize_compact payload payload_header encrypter)

  unfoldable pub decrypt_jwe : Text → Text → JweAlgorithm → Result CryptoError Text
  decrypt_jwe jwt private_key alg =
      ok_or CryptoError.jw_error (jose.decrypter_from_pem alg private_key) then_ok λ decrypter.
      ok_or CryptoError.jw_error (jose.jwe_deserialize_compact jwt decrypter) then_ok λ dst_payload.
      ok_or CryptoError.encoding_error (jose.from_utf8 dst_payload)

  unfoldable pub verify_sign : Text → Text → Result CryptoError Text
  verify_sign jws_body key =
      ok_or CryptoError.jw_error (jose.verifier_from_pem key) then_ok λ verifier.
      ok_or CryptoError.jw_error (jose.jws_deserialize_compact jws_body verifier)
      then_ok λ dst_payload. ok_or CryptoError.encoding_error (jose.from_utf8 dst_payload)

  module _ (self : JweEncryption) where
    unfoldable pub encrypt : Bytes → Result CryptoError JweBody
    unfolding jws_sign_payload encrypt_jwe
    encrypt payload = jws_sign_payload payload self.private_key then_ok λ jws_encoded.
        ok_or (CryptoError.invalid_data "JWS encoded data is incomplete")
          (from_dotted_str jws_encoded)
        then_ok λ jws_body.
            ok_or CryptoError.serde_json_error (jose.jws_to_vec jws_body) then_ok λ jws_payload.
            encrypt_jwe jws_payload self.public_key self.encryption_algo then_ok λ jwe_encrypted.
            ok_or (CryptoError.invalid_data "JWE data incomplete") (from_str jwe_encrypted)

    unfoldable pub decrypt : JweBody → Result CryptoError Bytes
    unfolding decrypt_jwe verify_sign
    decrypt input =
        decrypt_jwe (get_dotted_jwe input) self.private_key self.decryption_algo
        then_ok λ jwe_decrypted.
            ok_or (CryptoError.invalid_data "Failed while extracting jws body")
              (jose.jws_from_str jwe_decrypted)
            then_ok λ jws_parsed.
                verify_sign (get_dotted_jws jws_parsed) self.public_key then_ok λ output.
                ok (jose.as_bytes output)

  -- middleware: `next` is the handler of the request's body, with a status and the response's body,
  -- or no body where it cannot be read. The headers are replaced by the content type.
  unfoldable pub middleware :
      {W : Type 0}
      → Text
      → Text
      → (Bytes → W → (ℕ × Option Bytes) × W)
      → JweBody
      → Exec W ApiError (ℕ × JweBody)
  unfolding keys
  middleware locker_private_key public_key next jwe_body = do
    jwe_decrypted ←
        pure (map_err api_of_crypto (decrypt (keys locker_private_key public_key) jwe_body))
    response ← (λ w. let (r, w') = next jwe_decrypted w in (ok r, w'))
    response_body ← pure (
        ok_or (ApiError.response_middleware_error "Failed to read response body for jws signing")
          response.1)
    jwe_payload ←
        pure (map_err api_of_crypto (encrypt (keys locker_private_key public_key) response_body))
    pure (ok (response.0, jwe_payload))

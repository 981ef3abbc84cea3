-- ===== src/Crypto/Jwe/Tests.antt =====
-- A request through the middleware, with a library whose signatures and encryptions are the text with no
-- dot in it, and whose JSON is the dotted form.
use hyperswitch_card_vault.Common.{
  ℕ, ◌+◌, ◌-◌, ◌≡◌, refl, [], ◌∷◌, Option, some, Text, codes, ok, none, ltb, if◌then◌else◌, arith,
}
use hyperswitch_card_vault.Storage.Rows.{Bytes}
use hyperswitch_card_vault.Crypto.Jwe.{
  JwsBody, JweBody, Jose, JweEncryption, JweAlgorithm, dot, get_dotted_jws, get_dotted_jwe,
  from_dotted_str, from_str, encrypt, decrypt, middleware,
}
use hyperswitch_card_vault.Crypto.Jwe.Dotted.{
  IsSegment, JwsSegments, JweSegments, from_dotted_str-get_dotted_jws, from_str-get_dotted_jwe,
}
use hyperswitch_card_vault.Crypto.Jwe.Sealing.{IsJose, middleware_round_trip}

abbrev hide : Bytes → Text
hide [] = []
hide (c ∷ cs) = (if ltb c dot then c else c + 1) ∷ hide cs

abbrev show : Text → Bytes
show [] = []
show (c ∷ cs) = (if ltb c dot then c else c - 1) ∷ show cs

hide-IsSegment : (bs : Bytes) → IsSegment (hide bs)
hide-IsSegment [] = tt
hide-IsSegment (c ∷ cs) = (λ h. ground arith, hide-IsSegment cs)

show-hide : (bs : Bytes) → show (hide bs) ≡ bs
show-hide [] = refl
show-hide (c ∷ cs) = ground (arith, show-hide cs)

abbrev signed : Bytes → JwsBody
signed payload = record { header = []; payload = hide payload; signature = [] }

abbrev encrypted : Bytes → JweBody
encrypted json = record {
  header = [];
  iv = [];
  encrypted_payload = hide json;
  tag = [];
  encrypted_key = [];
}

abbrev shown : {A : Type 0} → (A → Text) → Option A → Option Bytes
shown part none = none
shown part (some body) = some (show (part body))

-- A key is its algorithm with a text, and opens what was encrypted for its owner.
abbrev jose : Jose (Option JweAlgorithm × Text)
jose = record {
  signer_from_pem = λ key. some (none, key);
  verifier_from_pem = λ key. some (none, key);
  encrypter_from_pem = λ alg key. some (some alg, key);
  decrypter_from_pem = λ alg key. some (some alg, key);
  jws_serialize_compact = λ payload key. some (get_dotted_jws (signed payload));
  jws_deserialize_compact = λ text key. shown (λ body. body.payload) (from_dotted_str text);
  jwe_serialize_compact = λ payload header key. some (get_dotted_jwe (encrypted payload));
  jwe_deserialize_compact = λ text key. shown (λ body. body.encrypted_payload) (from_str text);
  from_utf8 = some;
  as_bytes = λ text. text;
  jws_to_vec = λ body. some (get_dotted_jws body);
  jws_from_str = from_dotted_str;
}

abbrev client : JweEncryption
client = record {
  private_key = codes "c";
  public_key = codes "c";
  encryption_algo = JweAlgorithm.rsa_oaep_256;
  decryption_algo = JweAlgorithm.rsa_oaep;
}

belong : (sender receiver : JweEncryption) → IsJose jose sender receiver
belong sender receiver = record {
  signer = (none, sender.private_key);
  verifier = (none, receiver.public_key);
  encrypter = (some sender.encryption_algo, sender.public_key);
  decrypter = (some receiver.decryption_algo, receiver.private_key);
  signer_made = refl;
  verifier_made = refl;
  encrypter_made = refl;
  decrypter_made = refl;
  signs = λ payload.
      let segments : JwsSegments (signed payload) = (tt, hide-IsSegment payload, tt) in
      (
        signed payload,
        refl,
        segments,
        simp (from_dotted_str-get_dotted_jws (signed payload) segments, show-hide),
      );
  encrypts = λ json.
      let segments : JweSegments (encrypted json) = (tt, tt, tt, hide-IsSegment json, tt) in
      (
        encrypted json,
        refl,
        segments,
        simp (from_str-get_dotted_jwe (encrypted json) segments, show-hide),
      );
  reads_text = λ text. refl;
  writes = λ jws segments. (get_dotted_jws jws, refl, from_dotted_str-get_dotted_jws jws segments);
}

-- A handler that counts its calls, and answers 200 with the number and the body of the request.
abbrev next : Bytes → ℕ → (ℕ × Option Bytes) × ℕ
next body w = ((200, some (200 ∷ body)), w + 1)

middleware_round_trip_example :
    (sealed answer : JweBody) × (encrypt jose client (codes "a.b") ≡ ok sealed)
    × (middleware jose (codes "v") (codes "c") next sealed 0 ≡ (ok (200, answer), 1))
    × (decrypt jose client answer ≡ ok (200 ∷ codes "a.b"))
middleware_round_trip_example =
    middleware_round_trip jose (codes "v") (codes "c") next client (belong _ _) (belong _ _)
      (codes "a.b") (200 ∷ codes "a.b") 200 0 1 refl

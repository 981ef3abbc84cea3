-- ===== src/Crypto/Jwe/Dotted.antt =====
-- The dotted form of signed and encrypted bodies reads back: crypto/encryption_manager/managers/jw.rs.
use hyperswitch_card_vault.Common.{◌≡◌, ◌≢◌, refl, ◌++◌, [], ◌∷◌, some, Text, All, arith}
use hyperswitch_card_vault.Crypto.Jwe.{
  JwsBody, JweBody, dot, prepend, split, jws_of_segments, jwe_of_segments, from_dotted_str,
  from_str, get_dotted_jws, get_dotted_jwe,
}

-- A segment has no dot.
abbrev pub IsSegment : Text → Type 0
IsSegment = All (λ c. c ≢ dot)

split-segment : (s : Text) → IsSegment s → split dot s ≡ s ∷ []
unfolding split prepend
split-segment [] h = refl
split-segment (c ∷ s) h = ground (arith, split-segment s h.1)

split-append : (s t : Text) → IsSegment s → split dot (s ++ (dot ∷ t)) ≡ s ∷ split dot t
unfolding split prepend
split-append [] t h = ground arith
split-append (c ∷ s) t h = ground (arith, split-append s t h.1)

abbrev pub JwsSegments : JwsBody → Type 0
JwsSegments b = IsSegment b.header × IsSegment b.payload × IsSegment b.signature

abbrev pub JweSegments : JweBody → Type 0
JweSegments b =
    IsSegment b.header
    × IsSegment b.encrypted_key
    × IsSegment b.iv
    × IsSegment b.encrypted_payload
    × IsSegment b.tag

pub from_dotted_str-get_dotted_jws :
    (b : JwsBody) → JwsSegments b → from_dotted_str (get_dotted_jws b) ≡ some b
unfolding from_dotted_str get_dotted_jws jws_of_segments
from_dotted_str-get_dotted_jws b (h, p, s) =
    simp (split-append _ _ h, split-append _ _ p, split-segment _ s)

pub from_str-get_dotted_jwe : (b : JweBody) → JweSegments b → from_str (get_dotted_jwe b) ≡ some b
unfolding from_str get_dotted_jwe jwe_of_segments
from_str-get_dotted_jwe b (h, k, i, p, t) = simp (
  split-append _ _ h,
  split-append _ _ k,
  split-append _ _ i,
  split-append _ _ p,
  split-segment _ t,
)

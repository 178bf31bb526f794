-- ===== src/Base64/Tests.antt =====
-- Base 64 on concrete inputs.
use notbit.Common.{◌≡◌, arith, [], ◌∷◌, some}
use notbit.Base64.{encode}
use notbit.Base64.RoundTrip.{decode_all, decode_all-encode}

decode_all-encode_example :
    decode_all (encode (1 ∷ (2 ∷ (3 ∷ (255 ∷ []))))) ≡ some (1 ∷ (2 ∷ (3 ∷ (255 ∷ []))))
decode_all-encode_example =
    decode_all-encode (1 ∷ (2 ∷ (3 ∷ (255 ∷ []))))
      (omega arith, (omega arith, (omega arith, (omega arith, tt))))

-- ===== src/Base58/Tests.antt =====
-- Base 58 on concrete inputs.
use notbit.Common.{◌≡◌, arith, Bytes, [], ◌∷◌, some}
use notbit.Proto.Types.{codes}
use notbit.Base58.{get_digit_value, decode_loop, encode, decode}
use notbit.Base58.Instance.{big_num}
use notbit.Base58.RoundTrip.{decode-encode}

abbrev input : Bytes
input = 4 ∷ (1 ∷ (0 ∷ (255 ∷ [])))

decode-encode_example : decode big_num (encode big_num input) 4 ≡ some input
decode-encode_example =
    decode-encode big_num 4 (1 ∷ (0 ∷ (255 ∷ []))) 4 (omega arith)
      (omega arith, (omega arith, (omega arith, (omega arith, tt)))) (omega arith)

decode_one : decode big_num (codes "1") 1 ≡ some (0 ∷ [])
unfolding decode decode_loop get_digit_value
decode_one = rw (big_num.bn2bin_zero) (ground arith)

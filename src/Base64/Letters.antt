-- ===== src/Base64/Letters.antt =====
-- The alphabet and its inverse.
use notbit.Common.{ℕ, ◌<◌, ◌≡◌, arith, some, none}
use notbit.Base64.{alphabet_value, to_alphabet_value}

-- Of every letter that is written for 6 bits, those 6 bits are read.
pub alphabet_value-to_alphabet_value :
    (v : ℕ) → v < 64 → alphabet_value (to_alphabet_value v) ≡ some v
unfolding alphabet_value to_alphabet_value
alphabet_value-to_alphabet_value v h = ground arith

pub alphabet_value_equals : alphabet_value 61 ≡ none
unfolding alphabet_value
alphabet_value_equals = ground arith

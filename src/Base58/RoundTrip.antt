-- ===== src/Base58/RoundTrip.antt =====
-- Decoding what was encoded, and which texts are decoded at all.
use notbit.Common.{
  ℕ, ◌+◌, ◌*◌, ◌≤◌, ◌<◌, ◌≡◌, arith, Bytes, [], ◌∷◌, IsByte, All, length, some, Option-cases, inl,
  inr, ==_ne,
}
use notbit.Base58.{BigNum, letter, get_digit_value, decode_loop, encode, decode}
use notbit.Base58.Digits.{letter-get_digit_value, decode_loop-digits_loop}
use notbit.Base58.Reverse.{reverse_bytes-eq-reverse}

-- The number that was encoded is the number that is read.
decode_loop-encode :
    (bn : BigNum) (input : Bytes)
    → 0 < bn.bin2bn input
    → decode_loop 0 (encode bn input) ≡ some (bn.bin2bn input)
unfolding encode
decode_loop-encode bn input h =
    rw (==_ne (bn.bin2bn input) 0 (omega arith), reverse_bytes-eq-reverse)
      (decode_loop-digits_loop (bn.bin2bn input) (bn.bin2bn input) (omega arith))

-- A byte string that does not begin with a zero byte, encoded and decoded into a buffer with room
-- for it, comes back.
pub decode-encode :
    (bn : BigNum) (b : ℕ) (bytes : Bytes) (room : ℕ)
    → 0 < b
    → All IsByte (b ∷ bytes)
    → length (b ∷ bytes) ≤ room
    → decode bn (encode bn (b ∷ bytes)) room ≡ some (b ∷ bytes)
unfolding decode
decode-encode bn b bytes room pos bytes_ok fits = ground (
  arith,
  decode_loop-encode bn (b ∷ bytes) (bn.bin2bn_pos b bytes pos),
  bn.bn2bin-bin2bn b bytes pos bytes_ok,
)

-- The single zero byte comes back too.
pub decode-encode_zero :
    (bn : BigNum) (room : ℕ) → decode bn (encode bn (0 ∷ [])) room ≡ some (0 ∷ [])
unfolding decode encode decode_loop get_digit_value
decode-encode_zero bn room = rw (bn.bin2bn_zero) (rw (bn.bn2bin_zero) (ground arith))

decode_loop_letters :
    (val : ℕ) (input : Bytes) (out : ℕ)
    → All IsByte input
    → decode_loop val input ≡ some out
    → All (λ c. (i : ℕ) × (i < 58) × (letter i ≡ c)) input
unfolding decode_loop
decode_loop_letters val [] out small h = tt
decode_loop_letters val (c ∷ input) out small h = elim (Option-cases (get_digit_value c)) [
  | inl e ↦ cc (e, h)
  | inr (digit, e) ↦ (
    (let (lo, same) = letter-get_digit_value c digit small.0 e in (digit, lo, same)),
    decode_loop_letters (val * 58 + digit) input out small.1 (ground (arith, e)),
  )
]

-- What is written fits the buffer.
pub decode_fits :
    (bn : BigNum) (input : Bytes) (room : ℕ) (out : Bytes)
    → 1 ≤ room
    → decode bn input room ≡ some out
    → length out ≤ room
unfolding decode
decode_fits bn input room out some_room h = ground arith

-- A text that is decoded has only letters of the alphabet, and what is written fits the buffer,
-- which has room for a byte at least.
pub decode_sound :
    (bn : BigNum) (input : Bytes) (room : ℕ) (out : Bytes)
    → All IsByte input
    → 1 ≤ room
    → decode bn input room ≡ some out
    → All (λ c. (i : ℕ) × (i < 58) × (letter i ≡ c)) input × (length out ≤ room)
unfolding decode
decode_sound bn input room out small some_room h = elim (Option-cases (decode_loop 0 input)) [
  | inl e ↦ cc (e, h)
  | inr (val, e) ↦
      (decode_loop_letters 0 input val small e, decode_fits bn input room out some_room h)
]

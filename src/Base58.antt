-- ===== src/Base58.antt =====
-- src/ntb-base58.c: numbers in base 58. A BIGNUM of OpenSSL stands for a natural number, and
-- BN_div_word, BN_mul_word and BN_add_word for its arithmetic; the conversions from and to bytes
-- are parameters.
pub mod Reverse
pub mod Digits
pub mod RoundTrip
pub mod Size
pub mod Letters
pub mod Instance
mod Tests
use notbit.Common.{
  ◌≡◌, ◌<◌, ◌^◌, All, IsByte, ℕ, zero, suc, ◌+◌, ◌-◌, ◌*◌, ◌/◌, ◌%◌, Bytes, List, [], ◌∷◌, ◌++◌,
  Bool, ◌&&◌, Option, none, some, ◌==◌, ltb, get_or, set, length, if◌then◌else◌,
}
use notbit.Proto.Types.{codes}

-- BN_bin2bn and BN_bn2bin, with what their manual says: the bytes are big-endian, and no leading
-- zero is written.
pub record BigNum : Type 0 where
  pub bin2bn : Bytes → ℕ
  pub bn2bin : ℕ → Bytes
  pub bin2bn_zero : bin2bn (0 ∷ []) ≡ 0
  pub bn2bin_zero : bn2bin 0 ≡ []
  pub bin2bn-lt : (bytes : Bytes) → All IsByte bytes → bin2bn bytes < 256 ^ length bytes
  pub bin2bn_pos : (b : ℕ) (bytes : Bytes) → 0 < b → 0 < bin2bn (b ∷ bytes)
  pub bn2bin-bin2bn :
      (b : ℕ) (bytes : Bytes)
      → 0 < b
      → All IsByte (b ∷ bytes)
      → bn2bin (bin2bn (b ∷ bytes)) ≡ b ∷ bytes

abbrev pub alphabet : Bytes
alphabet = codes "123456789ABCDEFGHJKLMNPQRSTUVWXYZabcdefghijkmnopqrstuvwxyz"

-- `alphabet[i]`; the array ends with a zero byte.
pub letter : ℕ → ℕ
letter i = get_or alphabet i 0

-- The loop `while (!BN_is_zero(&val))`, which writes the lowest digit first.
pub digits_loop : ℕ → ℕ → Bytes
digits_loop zero val = []
digits_loop (suc fuel) val =
    let more = digits_loop fuel (val / 58) in if val == 0 then [] else letter (val % 58) ∷ more

-- One round of the loop of reverse_bytes.
abbrev pub swap_at : ℕ → Bytes → Bytes
swap_at i bytes =
    let tmp = get_or bytes i 0 in
    set (set bytes i (get_or bytes (length bytes - 1 - i) 0)) (length bytes - 1 - i) tmp

-- The rounds from `i` on, `n` of them.
pub reverse_loop : ℕ → ℕ → Bytes → Bytes
reverse_loop zero i bytes = bytes
reverse_loop (suc n) i bytes = reverse_loop n (i + 1) (swap_at i bytes)

pub reverse_bytes : Bytes → Bytes
unfolding reverse_loop
reverse_bytes bytes = reverse_loop (length bytes / 2) 0 bytes

pub encode : BigNum → Bytes → Bytes
unfolding digits_loop reverse_bytes
encode bn input =
    let val = bn.bin2bn input in
    if val == 0 then letter 0 ∷ [] else reverse_bytes (digits_loop val val)

-- `alphabet[mid] < digit` on signed characters: a byte from 128 on is negative.
abbrev below : ℕ → ℕ → Bool
below mid digit = ltb (letter mid) digit && ltb digit 128

-- The loop of get_digit_value; the distance of `min` and `max` falls in each round.
search : ℕ → ℕ → ℕ → ℕ → ℕ
search zero min max digit = min
search (suc fuel) min max digit =
    let mid = (min + max) / 2 in
    let right = search fuel (mid + 1) max digit in
    let left = search fuel min mid digit in
    if ltb min max then (if below mid digit then right else left) else min

pub get_digit_value : ℕ → Option ℕ
unfolding search letter
get_digit_value digit =
    let min = search 58 0 58 digit in if letter min == digit then some min else none

-- The loop of ntb_base58_decode.
pub decode_loop : ℕ → Bytes → Option ℕ
decode_loop val [] = some val
decode_loop val (c ∷ input) = elim (get_digit_value c) [
  | none ↦ none
  | some digit ↦ decode_loop (val * 58 + digit) input
]

-- The bytes that ntb_base58_decode writes, or none for its result -1; `output_length` is the room.
pub decode : BigNum → Bytes → ℕ → Option Bytes
unfolding decode_loop get_digit_value
decode bn input output_length = elim (decode_loop 0 input) [
  | none ↦ none
  | some val ↦
      let bytes = bn.bn2bin val in
      let n_bytes = length bytes in
      let single = n_bytes == 0 && (length input == 1 && get_or input 0 0 == letter 0) in
      if ltb output_length n_bytes then none else if single then some (0 ∷ []) else some bytes
]

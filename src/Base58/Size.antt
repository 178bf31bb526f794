-- ===== src/Base58/Size.antt =====
-- How long an encoded text is.
use notbit.Common.{
  ℕ, zero, suc, ◌/◌, ◌^◌, ◌≤◌, ◌<◌, ◌≡◌, refl, arith, Bytes, [], ◌∷◌, IsByte, All, length, ◌==◌,
  Bool-cases, inl, inr,
}
use mathlib.Core.List.{reverse}
use native.Mathlib.Nat.{pow-suc, pow-le-pow_right}
use notbit.Common.{length-append}
use mathlib.Core.List.{reverse-cons}
use notbit.Base58.{BigNum, digits_loop, encode}
use notbit.Base58.Reverse.{reverse_bytes-eq-reverse}

length-digits_loop : (k fuel val : ℕ) → val < 58 ^ k → length (digits_loop fuel val) ≤ k
unfolding digits_loop
length-digits_loop k zero val h = omega arith
length-digits_loop zero (suc fuel) val h = ground arith
length-digits_loop (suc k) (suc fuel) val h = elim (Bool-cases (val == 0)) [
  | inl e ↦ rw e (omega arith)
  | inr e ↦ rw e (omega (arith, length-digits_loop k fuel (val / 58) (lower k val h)))
]
  where
    lower : (k val : ℕ) → val < 58 ^ suc k → val / 58 < 58 ^ k
    lower k val h = omega (arith, pow-suc 58 k)

length-reverse : (xs : Bytes) → length (reverse xs) ≡ length xs
length-reverse [] = refl
length-reverse (x ∷ xs) = rw (reverse-cons, length-append) (omega (arith, length-reverse xs))

-- At most 26 bytes are encoded in at most 36 letters.
pub length-encode :
    (bn : BigNum) (input : Bytes)
    → All IsByte input
    → length input ≤ 26
    → length (encode bn input) ≤ 36
unfolding encode
length-encode bn input small short =
    let val = bn.bin2bn input in
    let bound : 256 ^ length input ≤ 256 ^ 26 =
      pow-le-pow_right {n = 256} (omega arith) {i = length input} {j = 26} short in
    let most : length (digits_loop val val) ≤ 36 =
      length-digits_loop 36 val val (omega (arith, bound, bn.bin2bn-lt input small)) in
    elim (Bool-cases (val == 0)) [
      | inl e ↦ rw e (omega arith)
      | inr e ↦ rw (e, reverse_bytes-eq-reverse, length-reverse) most
    ]

-- ===== src/Base58/Instance.antt =====
-- Big-endian conversions that have the properties asked of BN_bin2bn and BN_bn2bin.
use notbit.Common.{
  ℕ, zero, suc, ◌+◌, ◌*◌, ◌/◌, ◌%◌, ◌^◌, ◌≤◌, ◌<◌, ◌≡◌, refl, sym, ◌∙◌, ap, arith, Bytes, [], ◌∷◌,
  ◌++◌, All, IsByte, length, ◌==◌, if◌then◌else◌, append_assoc, append-nil, Bool-cases, inl, inr,
  ==_ne,
}
use native.Mathlib.Nat.{pow-suc, mul_assoc, mul_comm, mul-le-mul_right}
use notbit.Base58.{BigNum}

to_number : ℕ → Bytes → ℕ
to_number acc [] = acc
to_number acc (b ∷ bytes) = to_number (acc * 256 + b) bytes

to_bytes : ℕ → ℕ → Bytes
to_bytes zero v = []
to_bytes (suc fuel) v =
    let high = to_bytes fuel (v / 256) in if v == 0 then [] else high ++ ((v % 256) ∷ [])

to_bytes_fuel : (f g v : ℕ) → v ≤ f → v ≤ g → to_bytes f v ≡ to_bytes g v
unfolding to_bytes
to_bytes_fuel zero zero v h k = refl
to_bytes_fuel zero (suc g) v h k = ground arith
to_bytes_fuel (suc f) zero v h k = ground arith
to_bytes_fuel (suc f) (suc g) v h k = elim (Bool-cases (v == 0)) [
  | inl e ↦ rw e refl
  | inr e ↦
      rw e (
        ap (λ t. t ++ ((v % 256) ∷ [])) (to_bytes_fuel f g (v / 256) (ground arith) (ground arith)))
]

to_bytes_suc :
    (fuel v : ℕ)
    → 0 < v
    → v ≤ fuel
    → to_bytes fuel v ≡ to_bytes (v / 256) (v / 256) ++ ((v % 256) ∷ [])
unfolding to_bytes
to_bytes_suc zero v pos h = absurd (omega arith)
to_bytes_suc (suc fuel) v pos h = rw (==_ne v 0 (omega arith)) (
    ap (λ t. t ++ ((v % 256) ∷ []))
      (to_bytes_fuel fuel (v / 256) (v / 256) (omega arith) (omega arith)))

to_bytes_step :
    (v b : ℕ)
    → 0 < v * 256 + b
    → b < 256
    → to_bytes (v * 256 + b) (v * 256 + b) ≡ to_bytes v v ++ (b ∷ [])
to_bytes_step v b pos small =
    to_bytes_suc (v * 256 + b) (v * 256 + b) pos (omega arith)
    ∙ rw
        (
          let e : (v * 256 + b) / 256 ≡ v = omega arith in e,
          let e : (v * 256 + b) % 256 ≡ b = omega arith in e,
        )
        refl

to_bytes-to_number :
    (acc : ℕ) (bytes : Bytes)
    → 0 < acc
    → All IsByte bytes
    → to_bytes (to_number acc bytes) (to_number acc bytes) ≡ to_bytes acc acc ++ bytes
unfolding to_number
to_bytes-to_number acc [] pos h = sym (append-nil (to_bytes acc acc))
to_bytes-to_number acc (b ∷ bytes) pos h =
    to_bytes-to_number (acc * 256 + b) bytes (omega arith) h.1
    ∙ ap (λ t. t ++ bytes) (to_bytes_step acc b (omega arith) h.0)
    ∙ append_assoc (to_bytes acc acc) (b ∷ []) bytes

to_number_pos : (acc : ℕ) (bytes : Bytes) → 0 < acc → 0 < to_number acc bytes
unfolding to_number
to_number_pos acc [] h = h
to_number_pos acc (b ∷ bytes) h = to_number_pos (acc * 256 + b) bytes (omega arith)

to_number-lt :
    (acc : ℕ) (bytes : Bytes)
    → All IsByte bytes
    → to_number acc bytes < (acc + 1) * 256 ^ length bytes
unfolding to_number
to_number-lt acc [] h = omega arith
to_number-lt acc (b ∷ bytes) h = rw (pow-suc 256 (length bytes)) (
    more acc b (to_number (acc * 256 + b) bytes) (256 ^ length bytes) h.0
      (to_number-lt (acc * 256 + b) bytes h.1))
  where
    more :
        (acc b n power : ℕ)
        → b < 256
        → n < (acc * 256 + b + 1) * power
        → n < (acc + 1) * (power * 256)
    more acc b n power small h = grind (
      arith,
      mul-le-mul_right power (let e : acc * 256 + b + 1 ≤ (acc + 1) * 256 = omega arith in e),
      mul_assoc (acc + 1) 256 power,
      mul_comm 256 power,
    )

pub big_num : BigNum
unfolding to_number to_bytes
big_num = record {
  bin2bn = to_number 0;
  bn2bin = λ v. to_bytes v v;
  bin2bn_zero = refl;
  bn2bin_zero = refl;
  bin2bn-lt = λ bytes h. omega (arith, to_number-lt 0 bytes h);
  bin2bn_pos = λ b bytes h. to_number_pos (0 * 256 + b) bytes (omega arith);
  bn2bin-bin2bn = λ b bytes pos h.
      to_bytes-to_number (0 * 256 + b) bytes (omega arith) h.1
      ∙ ap (λ t. t ++ bytes) (to_bytes_step 0 b (omega arith) h.0);
}

-- ===== src/Base58/Letters.antt =====
-- The letters of the alphabet of src/ntb-base58.c, in a text that is encoded.
use mathlib.Core.List.{reverse, reverse-cons}
use notbit.Base58.Reverse.{reverse_bytes-eq-reverse}
use notbit.Base58.{BigNum, letter, digits_loop, encode}
use notbit.Common.{
  ℕ, zero, suc, ◌%◌, ◌/◌, ◌<◌, ◌≡◌, refl, arith, Bytes, [], ◌∷◌, All, All-append, Bool, Bool-cases,
  inl, inr, true, not, ◌&&◌, ◌==◌, if◌then◌else◌, agree_below→eq,
}

-- None of the letters is a zero, `>` or `@`.
abbrev pub is_plain : ℕ → Bool
is_plain c = not (c == 0) && not (c == b'>') && not (c == b'@')

letter-is_plain : (i : ℕ) → i < 58 → is_plain (letter i) ≡ true
unfolding letter
letter-is_plain i h =
    one (is_plain (letter i))
      (agree_below→eq (λ j. if is_plain (letter j) then 1 else 0) (λ j. 1) 58 refl i h)
  where
    one : (b : Bool) → (if◌then◌else◌ {A = ℕ} b 1 0) ≡ 1 → b ≡ true
    one b e = ground arith

abbrev pub PlainText : Bytes → Type 0
PlainText = All λ c. is_plain c ≡ true

digits-PlainText : (fuel val : ℕ) → PlainText (digits_loop fuel val)
unfolding digits_loop
digits-PlainText zero val = tt
digits-PlainText (suc fuel) val = elim (Bool-cases (val == 0)) [
  | inl e ↦ rw e tt
  | inr e ↦ rw e (letter-is_plain (val % 58) (omega arith), digits-PlainText fuel (val / 58))
]

reverse-PlainText : (bytes : Bytes) → PlainText bytes → PlainText (reverse bytes)
reverse-PlainText [] h = tt
reverse-PlainText (b ∷ bytes) h = rw (reverse-cons b bytes) (
    All-append (λ c. is_plain c ≡ true) (reverse bytes) (b ∷ []) (reverse-PlainText bytes h.1)
      (h.0, tt))

pub encode-PlainText : (bn : BigNum) (input : Bytes) → PlainText (encode bn input)
unfolding encode
encode-PlainText bn input = elim (Bool-cases (bn.bin2bn input == 0)) [
  | inl e ↦ rw e (letter-is_plain 0 (omega arith), tt)
  | inr e ↦
      rw (e, reverse_bytes-eq-reverse)
        (reverse-PlainText _ (digits-PlainText (bn.bin2bn input) (bn.bin2bn input)))
]

-- ===== src/Base58/Digits.antt =====
-- get_digit_value inverts the alphabet, and the digits of a number read back as that number.
use notbit.Common.{
  ℕ, zero, suc, ◌+◌, ◌*◌, ◌/◌, ◌%◌, ◌≤◌, ◌<◌, ◌≡◌, refl, sym, ◌∙◌, ap, arith, Bytes, [], ◌∷◌, ◌++◌,
  Bool-cases, Option-cases, inl, inr, Option, none, some, agree_below→eq, ltb, ◌==◌, if◌then◌else◌,
  ◌&&◌,
}
use mathlib.Core.List.{reverse, reverse-cons}
use notbit.Base58.{letter, get_digit_value, digits_loop, decode_loop}

-- The value of a digit, with 58 for none.
abbrev value_or : Option ℕ → ℕ
value_or none = 58
value_or (some i) = i

value_or-eq : (o : Option ℕ) (i : ℕ) → value_or o ≡ i → i < 58 → o ≡ some i
value_or-eq none i e h = absurd (omega arith)
value_or-eq (some j) i e h = ap some e

-- Every letter of the alphabet has its place as value.
pub get_digit_value-letter : (i : ℕ) → i < 58 → get_digit_value (letter i) ≡ some i
unfolding get_digit_value
get_digit_value-letter i h =
    value_or-eq _ i
      (agree_below→eq (λ j. value_or (get_digit_value (letter j))) (λ j. j) 58 refl i h) h

-- 0 where the digit found is none, or the letter that was asked for.
abbrev mismatch : ℕ → Option ℕ → ℕ
mismatch c none = 0
mismatch c (some i) = if ltb i 58 && letter i == c then 0 else 1

mismatch-some : (c i : ℕ) → mismatch c (some i) ≡ 0 → (i < 58) × (letter i ≡ c)
mismatch-some c i h = ground arith

-- A byte that gets a value is the letter at that place.
pub letter-get_digit_value :
    (c i : ℕ) → c < 256 → get_digit_value c ≡ some i → (i < 58) × (letter i ≡ c)
unfolding get_digit_value
letter-get_digit_value c i h e = mismatch-some c i (
    ap (mismatch c) (sym e)
    ∙ agree_below→eq (λ d. mismatch d (get_digit_value d)) (λ d. 0) 256 refl c h)

decode_loop-append :
    (xs ys : Bytes) (val mid : ℕ)
    → decode_loop val xs ≡ some mid
    → decode_loop val (xs ++ ys) ≡ decode_loop mid ys
unfolding decode_loop
decode_loop-append [] ys val mid h = ground arith
decode_loop-append (c ∷ xs) ys val mid h = elim (Option-cases (get_digit_value c)) [
  | inl e ↦ cc (e, h)
  | inr (digit, e) ↦ ground (arith, e, decode_loop-append xs ys (val * 58 + digit) mid)
]

pub decode_loop-digits_loop :
    (fuel val : ℕ) → val ≤ fuel → decode_loop 0 (reverse (digits_loop fuel val)) ≡ some val
unfolding digits_loop
decode_loop-digits_loop zero val h = unfold decode_loop in ap some (omega arith)
decode_loop-digits_loop (suc fuel) val h = elim (Bool-cases (val == 0)) [
  | inl e ↦ unfold decode_loop in rw e (ap some (ground arith))
  | inr e ↦
      rw (e, reverse-cons)
        (decode_loop-append (reverse (digits_loop fuel (val / 58))) (letter (val % 58) ∷ []) 0
            (val / 58) (decode_loop-digits_loop fuel (val / 58) (ground arith))
          ∙ unfold decode_loop in ground (arith, get_digit_value-letter (val % 58) (omega arith)))
]

-- ===== src/Base64.antt =====
-- src/ntb-base64.c: base 64 with a decoder that takes its input in pieces.
pub mod Letters
pub mod Pieces
pub mod RoundTrip
pub mod Sizes
mod Tests
use Prim.Native.Nat.{bit_and, bit_or}
use notbit.Common.{
  ℕ, zero, suc, ◌+◌, ◌-◌, ◌*◌, ◌/◌, ◌%◌, ◌^◌, Bytes, [], ◌∷◌, ◌++◌, Bool, true, false, ◌||◌, not,
  Option, none, some, ◌==◌, ltb, leb, if◌then◌else◌,
}

-- none stands for -1.
pub alphabet_value : ℕ → Option ℕ
alphabet_value ch =
    if ch == b'/'
    then some 63
    else if ch == b'+'
    then some 62
    else if leb ch b'9'
    then (if ltb ch b'0' then none else some (ch - b'0' + 26 * 2))
    else if leb ch b'Z'
    then (if ltb ch b'A' then none else some (ch - b'A'))
    else if leb ch b'z'
    then (if ltb ch b'a' then none else some (ch - b'a' + 26))
    else none

-- struct ntb_base64_data. `value` is an int of 32 bits, seen as its bit pattern.
pub record State : Type 0 where
  pub n_padding : ℕ
  pub n_chars : ℕ
  pub value : ℕ

-- ntb_base64_decode_start
abbrev pub start : State
start = record { n_padding = 0; n_chars = 0; value = 0 }

-- Behind the first `=` at most one more may come, and no letter; none for an error.
pub handle_padding : State → Bytes → Option State
handle_padding d [] = some d
handle_padding d (c ∷ input) =
    let counted = handle_padding (record d { n_padding = d.n_padding + 1 }) input in
    let passed = handle_padding d input in
    if c == b'='
    then (if ltb 2 (d.n_padding + 1) then none else counted)
    else elim (alphabet_value c) [ some v ↦ none | none ↦ passed ]

-- `(data->value << 6) | ch_value`, the bits above 32 lost; `ch_value` is below 64, so that `|` adds.
abbrev pub push : State → ℕ → State
push d v = record d { n_chars = d.n_chars + 1; value = (d.value * 64 + v) % 2 ^ 32 }

-- The three bytes that a full group of four letters writes.
abbrev pub group_bytes : ℕ → Bytes
group_bytes value = (value / 2 ^ 16 % 256) ∷ ((value / 2 ^ 8 % 256) ∷ ((value % 256) ∷ []))

-- The loop of ntb_base64_decode; the bytes written so far stand in front.
pub decode_loop : State → Bytes → Bytes → Option (Bytes × State)
decode_loop d out [] = some (out, d)
decode_loop d out (c ∷ input) = elim (alphabet_value c) [
  | some v ↦
      let d' = push d v in
      let full = decode_loop (record d' { n_chars = 0 }) (out ++ group_bytes d'.value) input in
      let more = decode_loop d' out input in if leb 4 d'.n_chars then full else more
  | none ↦
      let padded = handle_padding d (c ∷ input) in
      let skipped = decode_loop d out input in
      if c == b'=' then elim padded [ none ↦ none | some d' ↦ some (out, d') ] else skipped
]

-- The bytes written and the state, or none for the result -1.
pub decode : State → Bytes → Option (Bytes × State)
decode d input =
    let padded = handle_padding d input in
    if ltb 0 d.n_padding
    then elim padded [ none ↦ none | some d' ↦ some ([], d') ]
    else decode_loop d [] input

-- The bytes of a last, short group, or none for the result -1.
pub decode_end : State → Option Bytes
decode_end d =
    if d.n_padding == 0
    then (if not (d.n_chars == 0) then none else some [])
    else if d.n_padding == 1
    then (if not (d.n_chars == 3) || not (d.value % 4 == 0)
        then none
        else some ((d.value / 2 ^ 10 % 256) ∷ ((d.value / 2 ^ 2 % 256) ∷ [])))
    else (if not (d.n_chars == 2) || not (d.value % 16 == 0)
        then none
        else some ((d.value / 2 ^ 4 % 256) ∷ []))

pub to_alphabet_value : ℕ → ℕ
to_alphabet_value value =
    if ltb value 26
    then value + b'A'
    else if ltb value 52
    then value - 26 + b'a'
    else if ltb value 62
    then value - 52 + b'0'
    else if value == 62
    then b'+'
    else b'/'

-- The letter for `(value >> shift) & 63`.
abbrev pub letter_at : ℕ → ℕ → ℕ
letter_at value shift = to_alphabet_value (value / 2 ^ shift % 64)

-- The first letter of a group takes `value >> 18` with no mask.
abbrev pub top_letter : ℕ → ℕ
top_letter value = to_alphabet_value (value / 2 ^ 18)

pub encode : Bytes → Bytes
unfolding to_alphabet_value
encode [] = []
encode (a ∷ []) =
    let value = a * 2 ^ 16 in top_letter value ∷ (letter_at value 12 ∷ (b'=' ∷ (b'=' ∷ [])))
encode (a ∷ (b ∷ [])) =
    let value = a * 2 ^ 16 + b * 2 ^ 8 in
    top_letter value ∷ (letter_at value 12 ∷ (letter_at value 6 ∷ (b'=' ∷ [])))
encode (a ∷ (b ∷ (c ∷ input))) =
    let value = a * 2 ^ 16 + b * 2 ^ 8 + c in
    top_letter value
    ∷ (letter_at value 12 ∷ (letter_at value 6 ∷ (letter_at value 0 ∷ encode input)))

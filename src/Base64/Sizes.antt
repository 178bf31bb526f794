-- ===== src/Base64/Sizes.antt =====
-- How many bytes the decoder writes: three for each four letters, with those that were left before.
use notbit.Base64.{State, alphabet_value, handle_padding, push, group_bytes, decode_loop, decode}
use notbit.Common.{
  ◌+◌, ◌*◌, ◌≤◌, ◌≡◌, arith, Bytes, [], ◌∷◌, ◌++◌, length, length-append, inl, inr, some,
  Option-cases,
}

handle_padding-n_chars :
    (input : Bytes) (d d' : State) → handle_padding d input ≡ some d' → d'.n_chars ≡ d.n_chars
unfolding handle_padding
handle_padding-n_chars [] d d' e = cc
handle_padding-n_chars (c ∷ input) d d' e = ground (
  arith,
  handle_padding-n_chars input d d',
  handle_padding-n_chars input (record d { n_padding = d.n_padding + 1 }) d',
)

loop_fits :
    (input : Bytes) (d d' : State) (out o : Bytes)
    → d.n_chars ≤ 3
    → decode_loop d out input ≡ some (o, d')
    → (4 * length o + 3 * d'.n_chars ≤ 4 * length out + 3 * (d.n_chars + length input))
      × (d'.n_chars ≤ 3)
unfolding decode_loop
loop_fits [] d d' out o h e = ground arith
loop_fits (c ∷ input) d d' out o h e = elim (Option-cases (alphabet_value c)) [
  | inr (v, f) ↦
      let g = group_bytes (push d v).value in
      ground (
        arith,
        f,
        length-append out g,
        loop_fits input (push d v) d' out o,
        loop_fits input (record (push d v) { n_chars = 0 }) d' (out ++ g) o,
      )
  | inl f ↦ ground (arith, f, loop_fits input d d' out o, handle_padding-n_chars (c ∷ input) d d')
]

-- With at most 3 letters left from before, n bytes give at most 3 * (n + 3) / 4.
pub length-decode :
    (d d' : State) (input o : Bytes)
    → d.n_chars ≤ 3
    → decode d input ≡ some (o, d')
    → (4 * length o ≤ 3 * (3 + length input)) × (d'.n_chars ≤ 3)
unfolding decode
length-decode d d' input o h e =
    ground (arith, loop_fits input d d' [] o h, handle_padding-n_chars input d d')

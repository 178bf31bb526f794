-- ===== src/Base64/RoundTrip.antt =====
-- What ntb_base64_encode writes is decoded as what it was given.
use notbit.Common.{
  ℕ, ◌+◌, ◌*◌, ◌/◌, ◌%◌, ◌^◌, ◌<◌, ◌≡◌, refl, ◌∙◌, ap, arith, Bytes, [], ◌∷◌, ◌++◌, Option, none,
  some, IsByte, All, append_assoc,
}
use notbit.Base64.{
  State, start, to_alphabet_value, handle_padding, push, group_bytes, decode_loop, decode,
  decode_end, encode,
}
use notbit.Base64.Letters.{alphabet_value-to_alphabet_value, alphabet_value_equals}
use notbit.Base64.Pieces.{at_letter, at_padding, decode-unpadded}

-- The output with the bytes of the last group behind it.
abbrev pub close : Bytes → Option Bytes → Option Bytes
close out none = none
close out (some last) = some (out ++ last)

-- The whole of a decoding: the input, and the end.
abbrev pub decode_all : Bytes → Option Bytes
decode_all input = elim (decode start input) [
  | none ↦ none
  | some (out, d) ↦ close out (decode_end d)
]

-- A run of the loop from a group's start, followed by the end, in front of which `out` stands.
abbrev finish : Option (Bytes × State) → Option Bytes
finish none = none
finish (some (out, d)) = close out (decode_end d)

abbrev between : ℕ → State
between value = record { n_padding = 0; n_chars = 0; value = value }

-- Four letters, from the start of a group.
group_lem :
    (v a b c e : ℕ) (out input : Bytes)
    → a < 64
    → b < 64
    → c < 64
    → e < 64
    → (w : ℕ) × (decode_loop (between v) out (
          to_alphabet_value a
          ∷ (to_alphabet_value b ∷ (to_alphabet_value c ∷ (to_alphabet_value e ∷ input))))
        ≡ decode_loop (between w) (out ++ group_bytes w) input)
      × (w % 2 ^ 24 ≡ a * 2 ^ 18 + b * 2 ^ 12 + c * 2 ^ 6 + e)
group_lem v a b c e out input ha hb hc he =
    let s₁ = push (between v) a in
    let s₂ = push s₁ b in
    let s₃ = push s₂ c in
    let s₄ = push s₃ e in
    (
      s₄.value,
      at_letter (to_alphabet_value a) _ (between v) out a (alphabet_value-to_alphabet_value a ha)
          ∙ at_letter (to_alphabet_value b) _ s₁ out b (alphabet_value-to_alphabet_value b hb)
          ∙ at_letter (to_alphabet_value c) _ s₂ out c (alphabet_value-to_alphabet_value c hc)
          ∙ at_letter (to_alphabet_value e) _ s₃ out e (alphabet_value-to_alphabet_value e he),
      omega arith,
    )

-- Two letters, from the start of a group, which leave it open.
two_letters :
    (v a b : ℕ) (out input : Bytes)
    → a < 64
    → b < 64
    → decode_loop (between v) out (to_alphabet_value a ∷ (to_alphabet_value b ∷ input))
      ≡ decode_loop (push (push (between v) a) b) out input
two_letters v a b out input ha hb =
    at_letter (to_alphabet_value a) _ (between v) out a (alphabet_value-to_alphabet_value a ha)
    ∙ at_letter (to_alphabet_value b) _ (push (between v) a) out b
        (alphabet_value-to_alphabet_value b hb)

pad_two :
    (d : State)
    → d.n_padding ≡ 0
    → handle_padding d (61 ∷ (61 ∷ [])) ≡ some (record d { n_padding = 2 })
unfolding handle_padding
pad_two d h = ground arith

pad_one :
    (d : State) → d.n_padding ≡ 0 → handle_padding d (61 ∷ []) ≡ some (record d { n_padding = 1 })
unfolding handle_padding
pad_one d h = ground arith

-- Two and three letters hold one and two bytes, with zero bits behind them.
end_two :
    (v a : ℕ)
    → a < 256
    → decode_end
        (record (push (push (between v) (a * 2 ^ 16 / 2 ^ 18)) (a * 2 ^ 16 / 2 ^ 12 % 64)) {
          n_padding = 2;
        })
      ≡ some (a ∷ [])
unfolding decode_end
end_two v a h = ground arith

end_three :
    (v a b : ℕ)
    → a < 256
    → b < 256
    → let value = a * 2 ^ 16 + b * 2 ^ 8 in
      decode_end
        (record (push
          (push (push (between v) (value / 2 ^ 18)) (value / 2 ^ 12 % 64))
          (value / 2 ^ 6 % 64)) { n_padding = 1 })
      ≡ some (a ∷ (b ∷ []))
unfolding decode_end
end_three v a b h k = ground arith

-- The bytes of a group are those whose 24 bits its letters hold.
group_bytes-eq :
    (w a b c : ℕ)
    → a < 256
    → b < 256
    → c < 256
    → let value = a * 2 ^ 16 + b * 2 ^ 8 + c in
      w % 2 ^ 24
        ≡ value / 2 ^ 18 * 2 ^ 18
          + value / 2 ^ 12 % 64 * 2 ^ 12
          + value / 2 ^ 6 % 64 * 2 ^ 6
          + value / 2 ^ 0 % 64
      → group_bytes w ≡ a ∷ (b ∷ (c ∷ []))
group_bytes-eq w a b c ha hb hc e =
    let whole : w % 2 ^ 24 ≡ a * 2 ^ 16 + b * 2 ^ 8 + c = omega arith in ground (arith, whole)

-- From the start of a group, whatever the state's value, the encoding of `xs` is decoded as `xs`.
decode_loop-encode :
    (xs : Bytes) (v : ℕ) (out : Bytes)
    → All IsByte xs
    → finish (decode_loop (between v) out (encode xs)) ≡ some (out ++ xs)
unfolding encode
decode_loop-encode [] v out h = unfold decode_loop decode_end in refl
decode_loop-encode (a ∷ []) v out h =
    let value = a * 2 ^ 16 in
    let d = push (push (between v) (value / 2 ^ 18)) (value / 2 ^ 12 % 64) in
    rw
      (
        two_letters v (value / 2 ^ 18) (value / 2 ^ 12 % 64) out (61 ∷ (61 ∷ []))
            (omega (arith, h.0)) (omega arith),
        at_padding 61 (61 ∷ []) d out refl alphabet_value_equals,
        pad_two d refl,
      )
      (ap (close out) (end_two v a h.0))
decode_loop-encode (a ∷ (b ∷ [])) v out h =
    let value = a * 2 ^ 16 + b * 2 ^ 8 in
    let d = push (push (between v) (value / 2 ^ 18)) (value / 2 ^ 12 % 64) in
    let third = value / 2 ^ 6 % 64 in
    rw
      (
        two_letters v (value / 2 ^ 18) (value / 2 ^ 12 % 64) out
            (to_alphabet_value third ∷ (61 ∷ [])) (omega (arith, h.0, h.1.0)) (omega arith),
        at_letter (to_alphabet_value third) (61 ∷ []) d out third
            (alphabet_value-to_alphabet_value third (omega arith)),
        at_padding 61 [] (push d third) out refl alphabet_value_equals,
        pad_one (push d third) refl,
      )
      (ap (close out) (end_three v a b h.0 h.1.0))
decode_loop-encode (a ∷ (b ∷ (c ∷ xs))) v out h =
    let value = a * 2 ^ 16 + b * 2 ^ 8 + c in
    let (w, run, low) =
      group_lem v (value / 2 ^ 18) (value / 2 ^ 12 % 64) (value / 2 ^ 6 % 64) (value / 2 ^ 0 % 64)
        out (encode xs) (omega (arith, h.0, h.1.0, h.1.1.0)) (omega arith) (omega arith)
        (omega arith) in
    let bytes = group_bytes-eq w a b c h.0 h.1.0 h.1.1.0 low in
    ap finish run
    ∙ decode_loop-encode xs w (out ++ group_bytes w) h.1.1.1
    ∙ ap some (append_assoc out (group_bytes w) xs ∙ ap (λ t. out ++ (t ++ xs)) bytes)

-- Encoding bytes and decoding the text, with the end of the input, gives the bytes back.
pub decode_all-encode : (xs : Bytes) → All IsByte xs → decode_all (encode xs) ≡ some xs
decode_all-encode xs h =
    ap finish (decode-unpadded (encode xs) start refl) ∙ decode_loop-encode xs 0 [] h

-- ===== src/QuotedPrintable/Automaton.antt =====
-- The decoder as an automaton that takes one byte at a time.
use notbit.Common.{
  length, length-append, ◌≤◌, ◌≡◌, sym, ◌∙◌, ap, arith, inl, inr, Option-cases, some_injective, ℕ,
  ◌+◌, ◌*◌, ◌%◌, Bytes, [], ◌∷◌, ◌++◌, Option, none, some, ◌==◌, if◌then◌else◌,
}
use notbit.QuotedPrintable.{
  Mode, octet, quote_start, skip_spaces, soft_cr, escaped_octet, State, hex_value, output_octet,
  is_blank,
}

infixl 5 ◌>>=◌
abbrev pub ◌>>=◌ {ℓ κ} : {A : Type ℓ} {B : Type κ} → Option A → (A → Option B) → Option B
none >>= f = none
some a >>= f = f a

-- What one byte does in each mode: the new state and the output, or none for an error.
unfoldable pub step : Mode → State → ℕ → Option (Bytes × State)
step octet d c =
    if c == b'='
    then some ([], record d { mode = quote_start })
    else some (output_octet d.underscore_is_space c ∷ [], d)
step quote_start d c = elim (hex_value c) [
  | some nibble ↦ some ([], record d { mode = escaped_octet; nibble = nibble })
  | none ↦
      if is_blank c
      then some ([], record d { mode = skip_spaces })
      else if c == 13
      then some ([], record d { mode = soft_cr })
      else if c == 10
      then some ([], record d { mode = octet })
      else none
]
step skip_spaces d c =
    if is_blank c
    then some ([], d)
    else if c == 13
    then some ([], record d { mode = soft_cr })
    else if c == 10
    then some ([], record d { mode = octet })
    else none
step soft_cr d c = if c == 10 then some ([], record d { mode = octet }) else none
step escaped_octet d c = elim (hex_value c) [
  | none ↦ none
  | some nibble ↦ some ((d.nibble * 16 + nibble) % 256 ∷ [], record d { mode = octet })
]

unfoldable pub run : State → Bytes → Option (Bytes × State)
run d [] = some ([], d)
run d (c ∷ input) =
    step d.mode d c >>= λ (octets, d'). run d' input >>= λ (more, end). some (octets ++ more, end)

abbrev pub continue : Bytes → Bytes → State → Option (Bytes × State)
continue ys out d = run d ys >>= λ (more, end). some (out ++ more, end)

-- The first byte and the rest.
module _ (c : ℕ) (input : Bytes) (d : State) where
  pub run_first_none : step d.mode d c ≡ none → run d (c ∷ input) ≡ none
  unfolding run
  run_first_none e =
      ap (λ t. t >>= λ (out, d'). run d' input >>= λ (more, end). some (out ++ more, end)) e

  pub run_rest_none :
      (d' : State) (out : Bytes)
      → step d.mode d c ≡ some (out, d')
      → run d' input ≡ none
      → run d (c ∷ input) ≡ none
  unfolding run
  run_rest_none d' out e f =
      ap (λ t. t >>= λ (out, d'). run d' input >>= λ (more, end). some (out ++ more, end)) e
      ∙ ap (λ t. t >>= λ (more, end). some (out ++ more, end)) f

  pub run_both :
      (d' end : State) (out more : Bytes)
      → step d.mode d c ≡ some (out, d')
      → run d' input ≡ some (more, end)
      → run d (c ∷ input) ≡ some (out ++ more, end)
  unfolding run
  run_both d' end out more e f =
      ap (λ t. t >>= λ (out, d'). run d' input >>= λ (more, end). some (out ++ more, end)) e
      ∙ ap (λ t. t >>= λ (more, end). some (out ++ more, end)) f

one_byte :
    (m : Mode) (d d' : State) (c : ℕ) (out : Bytes) → step m d c ≡ some (out, d') → length out ≤ 1
unfolding step
one_byte octet d d' c out e = ground arith
one_byte quote_start d d' c out e = ground arith
one_byte skip_spaces d d' c out e = ground arith
one_byte soft_cr d d' c out e = ground arith
one_byte escaped_octet d d' c out e = ground arith

-- No more bytes are written than read.
pub length-run :
    (input : Bytes) (d d' : State) (out : Bytes)
    → run d input ≡ some (out, d')
    → length out ≤ length input
length-run [] d d' out e = unfold run in ground arith
length-run (c ∷ input) d d' out e = elim (Option-cases (step d.mode d c)) [
  | inl f ↦ absurd (cc (run_first_none c input d f, e))
  | inr ((got, d₁), f) ↦ elim (Option-cases (run d₁ input)) [
    | inl g ↦ absurd (cc (run_rest_none c input d d₁ got f g, e))
    | inr ((more, end), g) ↦
        let both = some_injective (sym (run_both c input d d₁ end got more f g) ∙ e) in
        omega (
          arith,
          one_byte d.mode d d₁ c got f,
          length-run input d₁ end more g,
          length-append got more,
          ap (λ r. length r.0) both,
        )
  ]
]

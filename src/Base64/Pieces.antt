-- ===== src/Base64/Pieces.antt =====
-- The input of the decoder may be cut anywhere.
use notbit.Common.{
  ℕ, ◌+◌, ◌≤◌, ◌<◌, ◌≡◌, refl, sym, ◌∙◌, ap, arith, Bytes, [], ◌∷◌, ◌++◌, Option, none, some,
  ltb→lt, Option-cases, Bool-cases, inl, inr, ◌==◌, ltb, leb, append_assoc, append-nil,
  if◌then◌else◌, true, false,
}
use notbit.Base64.{State, alphabet_value, handle_padding, push, group_bytes, decode_loop, decode}

infixl 5 ◌>>=◌
abbrev pub ◌>>=◌ {ℓ κ} : {A : Type ℓ} {B : Type κ} → Option A → (A → Option B) → Option B
none >>= f = none
some a >>= f = f a

bind_assoc {ℓ κ ι} :
    {A : Type ℓ} {B : Type κ} {C : Type ι} (m : Option A) (f : A → Option B) (g : B → Option C)
    → (m >>= f >>= g) ≡ (m >>= λ a. f a >>= g)
bind_assoc none f g = refl
bind_assoc (some a) f g = refl

handle_padding-append :
    (xs ys : Bytes) (d : State)
    → handle_padding d (xs ++ ys) ≡ (handle_padding d xs >>= λ d'. handle_padding d' ys)
unfolding handle_padding
handle_padding-append [] ys d = refl
handle_padding-append (c ∷ xs) ys d = ground (
  arith,
  handle_padding-append xs ys d,
  handle_padding-append xs ys (record d { n_padding = d.n_padding + 1 }),
)

handle_padding_mono :
    (xs : Bytes) (d d' : State) → handle_padding d xs ≡ some d' → d.n_padding ≤ d'.n_padding
unfolding handle_padding
handle_padding_mono [] d d' h = ground arith
handle_padding_mono (c ∷ xs) d d' h = ground (
  arith,
  handle_padding_mono xs d d',
  handle_padding_mono xs (record d { n_padding = d.n_padding + 1 }) d',
)

handle_padding-pos :
    (c : ℕ) (xs : Bytes) (d d' : State)
    → (c == 61) ≡ true
    → handle_padding d (c ∷ xs) ≡ some d'
    → 0 < d'.n_padding
unfolding handle_padding
handle_padding-pos c xs d d' e h =
    ground (arith, handle_padding_mono xs (record d { n_padding = d.n_padding + 1 }) d')

-- What stands in front of the output stays there.
pub decode_loop-prefix :
    (ys : Bytes) (d : State) (a b : Bytes)
    → decode_loop d (a ++ b) ys ≡ (decode_loop d b ys >>= λ (o, d'). some (a ++ o, d'))
unfolding decode_loop
decode_loop-prefix [] d a b = refl
decode_loop-prefix (c ∷ ys) d a b = elim (Option-cases (alphabet_value c)) [
  | inl e ↦ ground (arith, e, decode_loop-prefix ys d a b)
  | inr (v, e) ↦
      let g = group_bytes (push d v).value in
      ground (
        arith,
        e,
        append_assoc a b g,
        decode_loop-prefix ys (record (push d v) { n_chars = 0 }) a (b ++ g),
        decode_loop-prefix ys (push d v) a b,
      )
]

decode-padded :
    (ys : Bytes) (d : State)
    → 0 < d.n_padding
    → decode d ys ≡ (handle_padding d ys >>= λ d'. some ([], d'))
unfolding decode
decode-padded ys d h = ground arith

pub decode-unpadded : (ys : Bytes) (d : State) → d.n_padding ≡ 0 → decode d ys ≡ decode_loop d [] ys
unfolding decode
decode-unpadded ys d h = ground arith

-- The rest of the input after a piece, whose output goes behind `out`.
abbrev continue : Bytes → Bytes → State → Option (Bytes × State)
continue ys out d = decode d ys >>= λ (more, d'). some (out ++ more, d')

padded-append :
    (c : ℕ) (xs ys : Bytes) (d : State) (out : Bytes)
    → (c == 61) ≡ true
    → (handle_padding d (c ∷ (xs ++ ys)) >>= λ d'. some (out, d'))
      ≡ (handle_padding d (c ∷ xs) >>= λ d'. continue ys out d')
padded-append c xs ys d out e = elim (Option-cases (handle_padding d (c ∷ xs))) [
  | inl p ↦ rw (handle_padding-append (c ∷ xs) ys d, p)
  | inr (d', p) ↦
      rw
        (
          handle_padding-append (c ∷ xs) ys d,
          p,
          decode-padded ys d' (handle_padding-pos c xs d d' e p),
        )
        (ground (arith, append-nil out))
]

-- One round of the loop, by what the character is.
module _ (c : ℕ) (input : Bytes) (d : State) (out : Bytes) where
  pub at_padding :
      (c == 61) ≡ true
      → alphabet_value c ≡ none
      → decode_loop d out (c ∷ input) ≡ (handle_padding d (c ∷ input) >>= λ d'. some (out, d'))
  unfolding decode_loop
  at_padding q e = ground arith

  pub at_other :
      (c == 61) ≡ false
      → alphabet_value c ≡ none
      → decode_loop d out (c ∷ input) ≡ decode_loop d out input
  unfolding decode_loop
  at_other q e = ground arith

  -- The state and the output behind a letter of value `v`.
  abbrev pub behind : ℕ → Bytes × State
  behind v =
      let d' = push d v in
      if leb 4 d'.n_chars
      then (out ++ group_bytes d'.value, record d' { n_chars = 0 })
      else (out, d')

  pub at_letter :
      (v : ℕ)
      → alphabet_value c ≡ some v
      → decode_loop d out (c ∷ input) ≡ decode_loop (behind v).1 (behind v).0 input
  unfolding decode_loop
  at_letter v e = ground arith

  behind_padding : (v : ℕ) → (behind v).1.n_padding ≡ d.n_padding
  behind_padding v = ground arith

decode_loop-append :
    (xs ys : Bytes) (d : State) (out : Bytes)
    → d.n_padding ≡ 0
    → decode_loop d out (xs ++ ys) ≡ (decode_loop d out xs >>= λ (mid, d'). continue ys mid d')
decode_loop-append [] ys d out h =
    unfold decode_loop in
    ap (λ t. decode_loop d t ys) (sym (append-nil out))
    ∙ decode_loop-prefix ys d out []
    ∙ ap (λ t. t >>= λ (o, d'). some (out ++ o, d')) (sym (decode-unpadded ys d h))
decode_loop-append (c ∷ xs) ys d out h =
    let rest = λ (p : Bytes × State). continue ys p.0 p.1 in
    elim (Option-cases (alphabet_value c)) [
      | inl e ↦ elim (Bool-cases (c == 61)) [
        | inl q ↦
            at_padding c (xs ++ ys) d out q e
            ∙ padded-append c xs ys d out q
            ∙ sym (
                ap (λ t. t >>= rest) (at_padding c xs d out q e)
                ∙ bind_assoc (handle_padding d (c ∷ xs)) (λ d'. some (out, d')) rest)
        | inr q ↦
            at_other c (xs ++ ys) d out q e
            ∙ decode_loop-append xs ys d out h
            ∙ ap (λ t. t >>= rest) (sym (at_other c xs d out q e))
      ]
      | inr (v, e) ↦
          let (out', d') = behind c xs d out v in
          at_letter c (xs ++ ys) d out v e
          ∙ decode_loop-append xs ys d' out' (behind_padding c xs d out v ∙ h)
          ∙ ap (λ t. t >>= rest) (sym (at_letter c xs d out v e))
    ]

-- Decoding two pieces one after the other, each with the state that the one before it left, writes
-- what decoding them at once writes, ends in the same state, and fails where that fails.
pub decode-append :
    (xs ys : Bytes) (d : State)
    → decode d (xs ++ ys) ≡ (decode d xs >>= λ (out, d'). continue ys out d')
decode-append xs ys d = elim (Bool-cases (ltb 0 d.n_padding)) [
  | inr e ↦
      let zero_padding : d.n_padding ≡ 0 = ground arith in
      decode-unpadded (xs ++ ys) d zero_padding
      ∙ decode_loop-append xs ys d [] zero_padding
      ∙ ap (λ t. t >>= λ (out, d'). continue ys out d') (sym (decode-unpadded xs d zero_padding))
  | inl e ↦
      let pos = ltb→lt 0 d.n_padding e in
      elim (Option-cases (handle_padding d xs)) [
        | inl p ↦ rw (
          decode-padded (xs ++ ys) d pos,
          handle_padding-append xs ys d,
          p,
          decode-padded xs d pos,
          p,
        )
        | inr (d', p) ↦
            let later : 0 < d'.n_padding = omega (arith, handle_padding_mono xs d d' p) in
            rw
              (
                decode-padded (xs ++ ys) d pos,
                handle_padding-append xs ys d,
                p,
                decode-padded xs d pos,
                p,
                decode-padded ys d' later,
              )
              (ground arith)
      ]
]

-- The first byte and the rest.
module _ (c : ℕ) (input : Bytes) (d : State) where
  pub decode_first_none : decode d (c ∷ []) ≡ none → decode d (c ∷ input) ≡ none
  decode_first_none e =
      decode-append (c ∷ []) input d ∙ ap (λ t. t >>= λ (out, d'). continue input out d') e

  pub decode_rest_none :
      (d' : State) (out : Bytes)
      → decode d (c ∷ []) ≡ some (out, d')
      → decode d' input ≡ none
      → decode d (c ∷ input) ≡ none
  decode_rest_none d' out e f =
      decode-append (c ∷ []) input d
      ∙ ap (λ t. t >>= λ (out, d'). continue input out d') e
      ∙ ap (λ t. t >>= λ (more, d''). some (out ++ more, d'')) f

  pub decode_both :
      (d' d'' : State) (out more : Bytes)
      → decode d (c ∷ []) ≡ some (out, d')
      → decode d' input ≡ some (more, d'')
      → decode d (c ∷ input) ≡ some (out ++ more, d'')
  decode_both d' d'' out more e f =
      decode-append (c ∷ []) input d
      ∙ ap (λ t. t >>= λ (out, d'). continue input out d') e
      ∙ ap (λ t. t >>= λ (more, d''). some (out ++ more, d'')) f

pub decode_nothing : (d : State) → decode d [] ≡ some ([], d)
unfolding decode handle_padding decode_loop
decode_nothing d = ground arith

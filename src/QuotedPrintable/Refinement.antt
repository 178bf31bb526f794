-- ===== src/QuotedPrintable/Refinement.antt =====
-- The decoder, which processes runs of bytes at once, does what the automaton does.
use notbit.Common.{
  ℕ, zero, suc, ◌+◌, ◌≤◌, ◌≡◌, refl, sym, ◌∙◌, ap, arith, Bytes, [], ◌∷◌, ◌++◌, Bool, Option, none,
  some, Option-cases, Bool-cases, inl, inr, ◌==◌, drop, length, length-drop, length-append,
  drop_front, append_assoc,
}
use notbit.QuotedPrintable.{
  Mode, octet, quote_start, skip_spaces, soft_cr, escaped_octet, State, is_blank, find_equals,
  handle_octet, handle_quote_start, handle_skip_spaces, handle_soft_cr, handle_escaped_octet,
  handle, prepend, decode_loop, decode,
}
use notbit.QuotedPrintable.Automaton.{◌>>=◌, step, run, continue}

pub bind_assoc {ℓ κ ι} :
    {A : Type ℓ} {B : Type κ} {C : Type ι} (m : Option A) (f : A → Option B) (g : B → Option C)
    → (m >>= f >>= g) ≡ (m >>= λ a. f a >>= g)
bind_assoc none f g = refl
bind_assoc (some a) f g = refl

abbrev in_mode : Mode → ℕ → Bool → State
in_mode m n u = record { mode = m; nibble = n; underscore_is_space = u }

-- What is left of the input after a handler, from the state that it leaves.
abbrev resume : Bytes → ℕ × State × Bytes → Option (Bytes × State)
resume input (processed, d, octets) = continue (drop processed input) octets d

octet_lem :
    (input : Bytes) (n : ℕ) (u : Bool)
    → run (in_mode octet n u) input ≡ (handle_octet (in_mode octet n u) input >>= resume input)
unfolding run step handle_octet find_equals
octet_lem [] n u = refl
octet_lem (c ∷ input) n u = elim (Bool-cases (c == 61)) [
  | inl e ↦ ground (arith, e)
  | inr e ↦ elim (Option-cases (find_equals input)) [
    | inl f ↦ ground (arith, e, f, octet_lem input n u)
    | inr (i, f) ↦
        let later : drop (suc i + 1) (c ∷ input) ≡ drop (i + 1) input =
          ap (λ t. drop t (c ∷ input)) (let q : suc i + 1 ≡ suc (i + 1) = omega arith in q) in
        ground (arith, e, f, later, octet_lem input n u)
  ]
]

run_eta : (r : Option (Bytes × State)) → (r >>= λ (more, end). some ([] ++ more, end)) ≡ r
run_eta none = refl
run_eta (some r) = refl

skip_spaces_lem :
    (input front : Bytes) (skip n : ℕ) (u : Bool)
    → length front ≡ skip
    → run (in_mode skip_spaces n u) input
      ≡ (handle_skip_spaces (in_mode skip_spaces n u) skip input >>= resume (front ++ input))
unfolding run step handle_skip_spaces
skip_spaces_lem [] front skip n u h = ground (arith, drop_front skip front [] h)
skip_spaces_lem (c ∷ input) front skip n u h =
    let front' = front ++ (c ∷ []) in
    let size : length front' ≡ skip + 1 = length-append front (c ∷ []) ∙ omega arith in
    let split : front' ++ input ≡ front ++ (c ∷ input) = append_assoc front (c ∷ []) input in
    let rest : drop (skip + 1) (front ++ (c ∷ input)) ≡ input =
      ap (drop (skip + 1)) (sym split) ∙ drop_front (skip + 1) front' input size in
    elim (Bool-cases (is_blank c)) [
      | inl e ↦
          let again : run (in_mode skip_spaces n u) input ≡ (
              handle_skip_spaces (in_mode skip_spaces n u) (skip + 1) input
              >>= resume (front ++ (c ∷ input))) =
            skip_spaces_lem input front' (skip + 1) n u size
            ∙ ap (λ t. handle_skip_spaces (in_mode skip_spaces n u) (skip + 1) input >>= resume t)
                split in
          rw e (run_eta _ ∙ again)
      | inr e ↦ elim (Bool-cases (c == 13)) [
        | inl p ↦ rw (e, p, rest)
        | inr p ↦ elim (Bool-cases (c == 10)) [ inl q ↦ rw (e, p, q, rest) | inr q ↦ rw (e, p, q) ]
      ]
    ]

pub handle_lem :
    (m : Mode) (n : ℕ) (u : Bool) (c : ℕ) (input : Bytes)
    → run (in_mode m n u) (c ∷ input) ≡ (handle m (in_mode m n u) c input >>= resume (c ∷ input))
unfolding handle
handle_lem octet n u c input = octet_lem (c ∷ input) n u
handle_lem quote_start n u c input = unfold run step handle_quote_start in ground arith
handle_lem skip_spaces n u c input = skip_spaces_lem (c ∷ input) [] 0 n u refl
handle_lem soft_cr n u c input = unfold run step handle_soft_cr in ground arith
handle_lem escaped_octet n u c input = unfold run step handle_escaped_octet in ground arith

skip_spaces-le :
    (input : Bytes) (d : State) (skip k : ℕ) (d' : State) (out : Bytes)
    → handle_skip_spaces d skip input ≡ some (k, d', out)
    → skip ≤ k
unfolding handle_skip_spaces
skip_spaces-le [] d skip k d' out h = ground arith
skip_spaces-le (c ∷ input) d skip k d' out h =
    ground (arith, skip_spaces-le input d (skip + 1) k d' out)

handle_processes :
    (m : Mode) (d : State) (c : ℕ) (input : Bytes) (k : ℕ) (d' : State) (out : Bytes)
    → handle m d c input ≡ some (k, d', out)
    → 1 ≤ k
unfolding handle
handle_processes octet d c input k d' out h = unfold handle_octet in ground arith
handle_processes quote_start d c input k d' out h = unfold handle_quote_start in ground arith
handle_processes skip_spaces d c input k d' out h =
    unfold handle_skip_spaces in ground (arith, skip_spaces-le input d (0 + 1) k d' out)
handle_processes soft_cr d c input k d' out h = unfold handle_soft_cr in ground arith
handle_processes escaped_octet d c input k d' out h = unfold handle_escaped_octet in ground arith

joined :
    (out : Bytes) (r : Option (Bytes × State))
    → prepend out (some r)
      ≡ some (◌>>=◌ {B = Bytes × State} r λ (more, end). some (out ++ more, end))
joined out none = refl
joined out (some r) = refl

-- One round of the loop.
module _ (fuel : ℕ) (d : State) (c : ℕ) (input : Bytes) where
  round_fails : handle d.mode d c input ≡ none → decode_loop (suc fuel) d (c ∷ input) ≡ some none
  unfolding decode_loop
  round_fails e = rw (e, decode_loop)

  round_goes_on :
      (k : ℕ) (d' : State) (out : Bytes)
      → handle d.mode d c input ≡ some (k, d', out)
      → decode_loop (suc fuel) d (c ∷ input)
        ≡ prepend out (decode_loop fuel d' (drop k (c ∷ input)))
  unfolding decode_loop
  round_goes_on k d' out e = rw (e, decode_loop)

-- With as much fuel as there are bytes the loop ends, with what the automaton does.
decode_loop-run :
    (fuel : ℕ) (d : State) (input : Bytes)
    → length input ≤ fuel
    → decode_loop fuel d input ≡ some (run d input)
unfolding decode_loop
decode_loop-run fuel d [] h = unfold run in refl
decode_loop-run zero d (c ∷ input) h = absurd (omega arith)
decode_loop-run (suc fuel) d (c ∷ input) h = elim (Option-cases (handle d.mode d c input)) [
  | inl e ↦
      round_fails fuel d c input e
      ∙ ap some (
          sym (
            handle_lem d.mode d.nibble d.underscore_is_space c input
            ∙ ap (λ t. t >>= resume (c ∷ input)) e))
  | inr ((k, d', out), e) ↦
      let pos = handle_processes d.mode d c input k d' out e in
      let rest = drop k (c ∷ input) in
      round_goes_on fuel d c input k d' out e
      ∙ ap (prepend out) (decode_loop-run fuel d' rest (rw length-drop (omega arith)))
      ∙ joined out (run d' rest)
      ∙ ap some (
          sym (
            handle_lem d.mode d.nibble d.underscore_is_space c input
            ∙ ap (λ t. t >>= resume (c ∷ input)) e))
]

-- ntb_quoted_printable_decode ends on every input, and does what the automaton does byte by byte.
pub decode-run : (d : State) (input : Bytes) → decode d input ≡ some (run d input)
unfolding decode
decode-run d input = decode_loop-run (length input) d input (omega arith)

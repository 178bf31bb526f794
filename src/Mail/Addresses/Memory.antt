-- ===== src/Mail/Addresses/Memory.antt =====
-- The memory of the parser for a list of addresses, against a buffer and the rest of the input.
use notbit.Base58.Reverse.{get_or_middle, set_middle}
use notbit.Common.{
  ℕ, ◌+◌, ◌<◌, ◌≡◌, sym, ◌∙◌, ap, arith, Bytes, [], ◌∷◌, ◌++◌, append_assoc, lt→ltb, length,
  length-append, take, take_front, get_or, set, Outcome, ok, fail, fault, ◌>>=◌,
}
use notbit.Mail.Addresses.{Data, append_byte}
use notbit.Mail.Addresses.Plain.{Plain, put}
use notbit.Mail.Addresses.Agreeing.{Agrees}

-- The buffer, a gap, and what has not been read.
pub record Same (d : Data) (inp : ℕ) (p : Plain) (input : Bytes) : Type 0 where
  pub gap : Bytes
  pub memory : d.memory ≡ p.buffer ++ (gap ++ input)
  pub filled : d.filled ≡ length p.buffer
  pub place : inp ≡ length p.buffer + length gap
  pub had : d.had_address ≡ p.had_address
  pub found : d.found ≡ p.found

abbrev pub At : ℕ → Bytes → Data → Plain → Type 0
At inp input d p = Same d inp p input

module _ {d : Data} {inp : ℕ} {p : Plain} where
  -- What is read is the next byte.
  pub read : (c : ℕ) (input : Bytes) → Same d inp p (c ∷ input) → get_or d.memory inp 0 ≡ c
  read c input s =
      ap (λ (m : Bytes). get_or m inp 0) (s.memory ∙ sym (append_assoc p.buffer s.gap (c ∷ input)))
      ∙ get_or_middle (p.buffer ++ s.gap) input c inp (length-append p.buffer s.gap ∙ sym s.place)

  pub next : (c : ℕ) (input : Bytes) → Same d inp p (c ∷ input) → Same d (inp + 1) p input
  next c input s = record {
    gap = s.gap ++ c ∷ [];
    memory = s.memory ∙ ap (λ (t : Bytes). p.buffer ++ t) (sym (append_assoc s.gap (c ∷ []) input));
    filled = s.filled;
    place = omega (arith, s.place, length-append s.gap (c ∷ []));
    had = s.had;
    found = s.found;
  }

  pub contents : (input : Bytes) → Same d inp p input → take d.filled d.memory ≡ p.buffer
  contents input s =
      ap (take d.filled) s.memory ∙ take_front d.filled p.buffer (s.gap ++ input) (sym s.filled)

  pub moved : {j : ℕ} {input : Bytes} → Same d inp p input → inp ≡ j → Same d j p input
  moved s e = record {
    gap = s.gap;
    memory = s.memory;
    filled = s.filled;
    place = sym e ∙ s.place;
    had = s.had;
    found = s.found;
  }

  pub append-At :
      (c : ℕ) (input : Bytes)
      → Same d inp p input
      → d.filled < inp
      → Agrees (At inp input) (append_byte c d) (ok (put c p))
  unfolding append_byte
  append-At c input s less = go s.gap s.memory s.place
    where
      go :
          (gap : Bytes)
          → d.memory ≡ p.buffer ++ (gap ++ input)
          → inp ≡ length p.buffer + length gap
          → Agrees (At inp input) (append_byte c d) (ok (put c p))
      go [] e f = absurd (omega (arith, less, s.filled, f))
      go (g ∷ gap) e f =
          let size = ap length e ∙ length-append p.buffer (g ∷ (gap ++ input)) in
          rw (lt→ltb d.filled (length d.memory) (omega (arith, size, s.filled))) (record {
            gap = gap;
            memory =
                ap (λ (m : Bytes). set m d.filled c) e
                ∙ set_middle p.buffer (gap ++ input) g d.filled c (sym s.filled)
                ∙ sym (append_assoc p.buffer (c ∷ []) (gap ++ input));
            filled = omega (arith, s.filled, length-append p.buffer (c ∷ []));
            place = omega (arith, f, length-append p.buffer (c ∷ []));
            had = s.had;
            found = s.found;
          })

then_Agrees {κ ι} :
    {C : Type κ} {D : Type ι} (S : C → D → Type 0) {inp : ℕ} {q : Plain} {input : Bytes}
    (r : Outcome Data) (f : Data → Outcome C) (y : Outcome D)
    → Agrees (At inp input) r (ok q)
    → ((d' : Data) → Same d' inp q input → Agrees S (f d') y)
    → Agrees S (r >>= f) y
then_Agrees S (ok d') f y h k = k d' h
then_Agrees S fail f y h k = elim h [ ]
then_Agrees S fault f y h k = elim h [ ]

pub append-then {κ ι} :
    {C : Type κ} {D : Type ι} (S : C → D → Type 0) {d : Data} {inp : ℕ} {p : Plain} (c : ℕ)
    (input : Bytes)
    → Same d inp p input
    → d.filled < inp
    → (f : Data → Outcome C) (y : Outcome D)
    → ((d' : Data) → Same d' inp (put c p) input → Agrees S (f d') y)
    → Agrees S (append_byte c d >>= f) y
append-then S c input s less f y = then_Agrees S _ f y (append-At c input s less)

-- ===== src/Mail/Addresses/InPlace.antt =====
-- The parser does not overwrite what it has not read, so that it does what it would do with a buffer of
-- its own.
use notbit.Address
use notbit.Address.{Address, Digests}
use notbit.Base58.{BigNum}
use notbit.Base58.Reverse.{set_middle}
use notbit.Common.{
  ℕ, zero, suc, ◌+◌, ◌<◌, ◌≡◌, refl, sym, ◌∙◌, ap, arith, Bytes, List, [], ◌∷◌, ◌++◌, append_assoc,
  Bool, Bool-cases, inl, inr, true, false, ◌==◌, ==_iff, some_injective, length, length-append, set,
  bytes_eq, Option, Option-cases, none, some,
}
use mathlib.Core.Path.{ap₂}
use notbit.Mail.Addresses.{
  Data, memchr, c_string, deliver, process_address, end_address, parse_quotes, brackets_loop,
  parse_brackets, parse_byte, addresses_loop, parse_addresses,
}
use notbit.Mail.Addresses.Plain.{
  Plain, put, accept, process, finish, quotes, brackets, byte, loop, plain_addresses,
}
use notbit.Proto.Types.{codes}
use notbit.Mail.Addresses.Agreeing.{
  Agrees, >>=-Agrees, Agrees-map, if-Agrees, if-Agrees-eq, Agrees-eq,
}
use notbit.Mail.Addresses.Memory.{Same, At, read, next, contents, moved, append-then}

-- One parser's state, position and rest against the other's.
abbrev Rest : Data × ℕ × ℕ → Plain × Bytes → Type 0
Rest (d, inp, n) (p, input) = Same d inp p input × (n ≡ length input)

memchr-split :
    (c : ℕ) (bytes front back : Bytes)
    → memchr c bytes ≡ some (front, back)
    → bytes ≡ front ++ c ∷ back
unfolding memchr
memchr-split c [] front back e = cc
memchr-split c (b ∷ bytes) front back e = elim (Bool-cases (b == c)) [
  | inl f ↦
      let g = some_injective (rw f at e) in
      ap₂ (λ (x : ℕ) (t : Bytes). x ∷ t) ((==_iff b c).0 f) (ap (λ (r : Bytes × Bytes). r.1) g)
      ∙ ap (λ (x : Bytes). x ++ c ∷ back) (ap (λ (r : Bytes × Bytes). r.0) g)
  | inr f ↦ elim (Option-cases (memchr c bytes)) [
    | inl g ↦ absurd (cc (rw (f, g) at e))
    | inr ((front', back'), g) ↦
        let k = some_injective (rw (f, g) at e) in
        ap (λ (t : Bytes). b ∷ t) (memchr-split c bytes front' back' g)
        ∙ ap (λ (r : Bytes × Bytes). r.0 ++ c ∷ r.1) k
  ]
]

c_string-cut : (name rest : Bytes) → c_string (name ++ 0 ∷ rest) ≡ c_string name
unfolding c_string
c_string-cut [] rest = refl
c_string-cut (b ∷ name) rest = ground (arith, c_string-cut name rest)

module _ (bn : BigNum) (h : Digests) where
  deliver-At :
      (d : Data) (inp : ℕ) (p : Plain) (input : Bytes) (r : Option (Bytes × Bytes))
      → Same d inp p input
      → memchr b'@' p.buffer ≡ r
      → Agrees (At inp input) (deliver bn h d r) (accept bn h p r)
  unfolding deliver accept
  deliver-At d inp p input none s e = tt
  deliver-At d inp p input (some (name, host)) s e =
      let split = memchr-split b'@' p.buffer name host e in
      let rest = s.gap ++ input in
      let cut : set d.memory (length name) 0 ≡ (name ++ 0 ∷ host) ++ rest =
        ap (λ (m : Bytes). set m (length name) 0)
          (s.memory ∙ ap (λ (t : Bytes). t ++ rest) split ∙ append_assoc name (b'@' ∷ host) rest)
        ∙ set_middle name (host ++ rest) b'@' (length name) 0 refl
        ∙ sym (append_assoc name (0 ∷ host) rest) in
      let text : c_string (set d.memory (length name) 0) ≡ c_string name =
        ap c_string (cut ∙ append_assoc name (0 ∷ host) rest) ∙ c_string-cut name (host ++ rest) in
      let size : length p.buffer ≡ length (name ++ 0 ∷ host) =
        ap length split ∙ length-append name (b'@' ∷ host) ∙ sym (length-append name (0 ∷ host)) in
      if-Agrees (At inp input) (bytes_eq host (codes "bitmessage")) _ _ _ _
        (rw text (elim (Option-cases (Address.decode bn h (c_string name))) [
          | inl f ↦ rw f tt
          | inr (address, f) ↦ rw f (record {
            gap = s.gap;
            memory = cut;
            filled = omega (arith, s.filled, size);
            place = omega (arith, s.place, size);
            had = s.had;
            found = ap (λ (l : List Address). l ++ address ∷ []) s.found;
          })
        ]))
        tt

  process-At :
      (d : Data) (inp : ℕ) (p : Plain) (input : Bytes)
      → Same d inp p input
      → Agrees (At inp input) (process_address bn h d) (process bn h p)
  unfolding process_address process
  process-At d inp p input s =
      rw (process_address, contents input s)
        (deliver-At d inp p input (memchr b'@' p.buffer) s refl)

  cleared-At :
      (had : Bool) (d : Data) (inp : ℕ) (p : Plain) (input : Bytes)
      → Same d inp p input
      → Same
          (record d { filled = 0; had_address = had })
          inp
          (record p { buffer = []; had_address = had })
          input
  cleared-At had d inp p input s = record {
    gap = p.buffer ++ s.gap;
    memory = s.memory ∙ sym (append_assoc p.buffer s.gap input);
    filled = refl;
    place = omega (arith, s.place, length-append p.buffer s.gap);
    had = refl;
    found = s.found;
  }

  end-At :
      (d : Data) (inp : ℕ) (p : Plain) (input : Bytes)
      → Same d inp p input
      → Agrees (At inp input) (end_address bn h d) (finish bn h p)
  unfolding end_address finish
  end-At d inp p input s =
      if-Agrees-eq (At inp input) d.had_address p.had_address s.had _ _ _ _
        (cleared-At false d inp p input s)
        (>>=-Agrees (At inp input) (At inp input) (process_address bn h d) (process bn h p) _ _
          (process-At d inp p input s) (λ d' q s'. cleared-At false d' inp q input s'))

  quotes-Rest :
      (input : Bytes) (d : Data) (inp : ℕ) (p : Plain)
      → Same d inp p input
      → d.filled < inp
      → Agrees Rest (parse_quotes bn h d inp (length input)) (quotes bn h p input)
  unfolding parse_quotes quotes
  quotes-Rest [] d inp p s less = tt
  quotes-Rest (c ∷ []) d inp p s less =
      rw (read c [] s) (if-Agrees Rest (c == b'"') _ _ _ _ (next c [] s, refl) tt)
  quotes-Rest (c ∷ (e ∷ input)) d inp p s less =
      let s1 : Same d (inp + 1) p (e ∷ input) = next c (e ∷ input) s in
      let s2 : Same d (inp + 2) p input = moved (next e input s1) (omega arith) in
      rw (read c (e ∷ input) s, read e input s1)
        (if-Agrees Rest (c == b'"') _ _ _ _ (s1, refl)
          (if-Agrees Rest (c == 92) _ _ _ _
            (append-then Rest e input s2 (omega (arith, less))
              (λ d'. parse_quotes bn h d' (inp + 2) (length input)) (quotes bn h (put e p) input)
              λ d' s'.
                quotes-Rest input d' (inp + 2) (put e p) s'
                  (omega (arith, s'.filled, length-append p.buffer (e ∷ []), s.filled, less)))
            (append-then Rest c (e ∷ input) s1 (omega (arith, less))
              (λ d'. parse_quotes bn h d' (inp + 1) (length (e ∷ input)))
              (quotes bn h (put c p) (e ∷ input))
              λ d' s'.
                quotes-Rest (e ∷ input) d' (inp + 1) (put c p) s'
                  (omega (arith, s'.filled, length-append p.buffer (c ∷ []), s.filled, less)))))

  brackets-Rest :
      (input : Bytes) (d : Data) (inp : ℕ) (p : Plain)
      → Same d inp p input
      → d.filled < inp
      → Agrees Rest (brackets_loop bn h d inp (length input)) (brackets bn h p input)
  unfolding brackets_loop brackets
  brackets-Rest [] d inp p s less = tt
  brackets-Rest (c ∷ input) d inp p s less =
      let s1 = next c input s in
      rw (read c input s) (
        if-Agrees Rest (c == b'>') _ _ _ _
          (>>=-Agrees (At (inp + 1) input) Rest (process_address bn h d) (process bn h p) _ _
            (process-At d (inp + 1) p input s1) (λ d' q s'. (s', refl)))
          (append-then Rest c input s1 (omega (arith, less)) _ _ λ d' s'.
            brackets-Rest input d' (inp + 1) (put c p) s'
              (omega (arith, s'.filled, length-append p.buffer (c ∷ []), s.filled, less))))

  byte-Rest :
      (c : ℕ) (input : Bytes) (d : Data) (inp : ℕ) (p : Plain)
      → Same d inp p (c ∷ input)
      → Agrees Rest (parse_byte bn h d inp (length input)) (byte bn h p c input)
  unfolding parse_byte byte parse_brackets
  byte-Rest c input d inp p s =
      let s1 = next c input s in
      rw (read c input s) (
        if-Agrees Rest (c == b',') _ _ _ _
          (>>=-Agrees (At (inp + 1) input) Rest (end_address bn h d) (finish bn h p) _ _
            (end-At d (inp + 1) p input s1)
            (λ d' q s'. (cleared-At false d' (inp + 1) q input s', refl)))
          (if-Agrees Rest (c == b'"') _ _ _ _
            (quotes-Rest input d (inp + 1) p s1 (omega (arith, s.place, s.filled)))
            (if-Agrees Rest (c == b'<') _ _ _ _
              (if-Agrees-eq Rest d.had_address p.had_address s.had _ _ _ _ tt (
                brackets-Rest input (record d { filled = 0; had_address = true }) (inp + 1)
                  (record p { buffer = []; had_address = true })
                  (cleared-At true d (inp + 1) p input s1) (omega arith)))
              (if-Agrees Rest (c == b' ') _ _ _ _ (s1, refl)
                (append-then Rest c input s1 (omega (arith, s.place, s.filled)) _ _
                  (λ d' s'. (s', refl)))))))

  loop-At :
      (fuel : ℕ) (input : Bytes) (d : Data) (inp : ℕ) (p : Plain)
      → Same d inp p input
      → Agrees
          (λ d' q. d'.found ≡ q.found)
          (addresses_loop bn h fuel d inp (length input))
          (loop bn h fuel p input)
  unfolding addresses_loop loop
  loop-At fuel [] d inp p s =
      Agrees-map (At inp []) (λ d' q. d'.found ≡ q.found) _ _ (λ _ _ s'. s'.found)
        (end-At d inp p [] s)
  loop-At zero (c ∷ input) d inp p s = tt
  loop-At (suc fuel) (c ∷ input) d inp p s =
      >>=-Agrees Rest (λ d' q. d'.found ≡ q.found) (parse_byte bn h d inp (length input))
        (byte bn h p c input) _ _ (byte-Rest c input d inp p s)
        λ (d', inp', n') (q, rest) (s', e). rw e (loop-At fuel rest d' inp' q s')

pub parse_addresses-plain :
    (bn : BigNum) (h : Digests) (buffer : Bytes)
    → parse_addresses bn h buffer ≡ plain_addresses bn h buffer
unfolding parse_addresses plain_addresses
parse_addresses-plain bn h buffer = Agrees-eq _ _ (
    >>=-Agrees (λ (d : Data) (q : Plain). d.found ≡ q.found) (λ a b. a ≡ b) _ _ _ _
      (loop-At bn h (length buffer) buffer
        (record { memory = buffer; filled = 0; had_address = false; found = [] }) 0
        (record { buffer = []; had_address = false; found = [] })
        (record { gap = []; memory = refl; filled = refl; place = refl; had = refl; found = refl }))
      (λ d q e. e))

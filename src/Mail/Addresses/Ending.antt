-- ===== src/Mail/Addresses/Ending.antt =====
-- The parser for a list of addresses ends on every list.
use notbit.Address.{Digests}
use notbit.Base58.{BigNum}
use notbit.Common.{
  ℕ, zero, suc, ◌≤◌, ◌≡◌, ◌≢◌, sym, ◌∙◌, arith, Bytes, [], ◌∷◌, true, false, ◌==◌, length, none,
  some, Option, fault, Yields, Yields-ne-fault, >>=-Yields, if-Yields,
}
use notbit.Mail.Addresses.{parse_addresses}
use notbit.Mail.Addresses.InPlace.{parse_addresses-plain}
use notbit.Mail.Addresses.Plain.{
  Plain, put, accept, process, finish, quotes, brackets, byte, loop, plain_addresses,
}

abbrev Any : Plain → Type 0
Any p = Unit

-- At most n bytes are left.
abbrev Left : ℕ → Plain × Bytes → Type 0
Left n (p, rest) = length rest ≤ n

module _ (bn : BigNum) (h : Digests) where
  accept-Any : (p : Plain) (r : Option (Bytes × Bytes)) → Yields Any (accept bn h p r)
  unfolding accept
  accept-Any p none = tt
  accept-Any p (some (name, host)) = ground arith

  finish-Any : (p : Plain) → Yields Any (finish bn h p)
  unfolding finish process
  finish-Any p =
      if-Yields Any p.had_address _ _ tt
        (>>=-Yields Any Any (process bn h p) _ (accept-Any p _) (λ _ _. tt))

  quotes-Left :
      (n : ℕ) (input : Bytes) (p : Plain) → length input ≤ n → Yields (Left n) (quotes bn h p input)
  unfolding quotes
  quotes-Left n [] p k = tt
  quotes-Left n (c ∷ []) p k = ground arith
  quotes-Left n (c ∷ (e ∷ input)) p k =
      ground (arith, quotes-Left n input (put e p), quotes-Left n (e ∷ input) (put c p))

  brackets-Left :
      (n : ℕ) (input : Bytes) (p : Plain)
      → length input ≤ n
      → Yields (Left n) (brackets bn h p input)
  unfolding brackets process
  brackets-Left n [] p k = tt
  brackets-Left n (c ∷ input) p k =
      if-Yields (Left n) (c == b'>') _ _
        (>>=-Yields Any (Left n) (process bn h p) _ (accept-Any p _) (λ _ _. omega arith))
        (brackets-Left n input (put c p) (omega arith))

  byte-Left :
      (p : Plain) (c : ℕ) (input : Bytes) → Yields (Left (length input)) (byte bn h p c input)
  unfolding byte
  byte-Left p c input =
      let n = length input in
      if-Yields (Left n) (c == b',') _ _
        (>>=-Yields Any (Left n) (finish bn h p) _ (finish-Any p) (λ _ _. omega arith))
        (if-Yields (Left n) (c == b'"') _ _ (quotes-Left n input p (omega arith)) (
          if-Yields (Left n) (c == b'<') _ _
            (if-Yields (Left n) p.had_address _ _ tt
              (brackets-Left n input (record p { buffer = []; had_address = true }) (omega arith)))
            (if-Yields (Left n) (c == b' ') _ _ (omega arith) (omega arith))))

  loop-Any :
      (fuel : ℕ) (p : Plain) (input : Bytes)
      → length input ≤ fuel
      → Yields Any (loop bn h fuel p input)
  unfolding loop
  loop-Any fuel p [] k = finish-Any p
  loop-Any zero p (c ∷ input) k = absurd (omega arith)
  loop-Any (suc fuel) p (c ∷ input) k =
      >>=-Yields (Left (length input)) Any (byte bn h p c input) _ (byte-Left p c input)
        λ (q, rest) shorter. loop-Any fuel q rest (omega (arith, shorter))

plain_addresses-ends :
    (bn : BigNum) (h : Digests) (buffer : Bytes) → plain_addresses bn h buffer ≢ fault
unfolding plain_addresses
plain_addresses-ends bn h buffer =
    Yields-ne-fault (λ _. Unit) (plain_addresses bn h buffer)
      (>>=-Yields Any (λ _. Unit)
        (loop bn h (length buffer) (record { buffer = []; had_address = false; found = [] }) buffer)
        _
        (loop-Any bn h (length buffer) (record { buffer = []; had_address = false; found = [] })
          buffer (omega arith))
        (λ _ _. tt))

-- The parser, which keeps the bytes of an address in front of its input in one buffer, ends on every list
-- without a fault: its loop does not use up its fuel, and it writes nothing outside the buffer. It finds
-- what it finds with a buffer of its own for the bytes of an address.
pub parse_addresses-apart :
    (bn : BigNum) (h : Digests) (buffer : Bytes)
    → (parse_addresses bn h buffer ≡ plain_addresses bn h buffer)
      × (parse_addresses bn h buffer ≢ fault)
parse_addresses-apart bn h buffer =
    let e = parse_addresses-plain bn h buffer in
    (e, λ f. plain_addresses-ends bn h buffer (sym e ∙ f))

-- ===== src/Mail/Addresses/Written.antt =====
-- What ntb_parse_addresses finds in a list of addresses with names.
use notbit.Address
use notbit.Address.{Address, Digests}
use notbit.Address.RoundTrip.{IsValid, decode-encode_address}
use notbit.Base58.{BigNum}
use notbit.Base58.Letters.{PlainText, encode-PlainText}
use notbit.Common.{
  ℕ, zero, suc, ◌≤◌, ◌<◌, ◌≡◌, refl, ◌∙◌, ap, arith, Bytes, List, [], ◌∷◌, ◌++◌, append_assoc,
  append-nil, map, All, Bool, Bool-cases, inl, inr, true, false, not, ◌&&◌, ◌==◌, length,
  length-append, All-append, bytes_eq, if◌then◌else◌, some, Outcome, ok, ◌>>=◌,
}
use notbit.Mail.Addresses.{memchr, c_string, parse_addresses}
use notbit.Mail.Addresses.InPlace.{parse_addresses-plain}
use notbit.Mail.Addresses.Plain.{
  Plain, reset, put, accept, process, finish, brackets, byte, loop, plain_addresses,
}
use notbit.Proto.Types.{codes}

-- A byte of a name that stands for itself.
abbrev pub is_name : ℕ → Bool
is_name c = not (c == b',') && not (c == b'"') && not (c == b'<')

abbrev pub Name : Bytes → Type 0
Name = All λ c. is_name c ≡ true

module _ (bn : BigNum) (h : Digests) where
  -- A name and its address in brackets, in front of what follows.
  abbrev pub entry : Bytes × Address → Bytes → Bytes
  entry (name, a) rest =
      name ++ b'<' ∷ (Address.encode bn h a ++ (codes "@bitmessage" ++ b'>' ∷ rest))

  abbrev pub listed : Bytes × Address → List (Bytes × Address) → Bytes
  listed e [] = entry e []
  listed e (f ∷ entries) = entry e (b',' ∷ b' ' ∷ listed f entries)

  abbrev pub Entry : Bytes × Address → Type 0
  Entry (name, a) = Name name × IsValid a × (0 < a.version)

  without_bracket : (text : Bytes) → PlainText text → All (λ c. (c == b'>') ≡ false) text
  without_bracket [] k = tt
  without_bracket (c ∷ text) k = (ground (arith, k.0), without_bracket text k.1)

  memchr-plain :
      (text host : Bytes) → PlainText text → memchr b'@' (text ++ b'@' ∷ host) ≡ some (text, host)
  unfolding memchr
  memchr-plain [] host k = refl
  memchr-plain (c ∷ text) host k = rw (memchr-plain text host k.1) (ground (arith, k.0))

  c_string-plain : (text : Bytes) → PlainText text → c_string text ≡ text
  unfolding c_string
  c_string-plain [] k = refl
  c_string-plain (c ∷ text) k = rw (c_string-plain text k.1) (ground (arith, k.0))

  encode-Plain : (a : Address) → PlainText (Address.encode bn h a)
  unfolding Address.encode
  encode-Plain a = (refl, (refl, (refl, encode-PlainText bn _)))

  -- What stands in brackets is processed.
  brackets-plain :
      (text rest : Bytes) (p : Plain)
      → All (λ c. (c == b'>') ≡ false) text
      → brackets bn h p (text ++ b'>' ∷ rest)
        ≡ (process bn h (record p { buffer = p.buffer ++ text }) >>= λ q. ok (q, rest))
  unfolding brackets
  brackets-plain [] rest p k = rw (append-nil p.buffer) refl
  brackets-plain (c ∷ text) rest p k =
      rw k.0 (
        rw (brackets-plain text rest (put c p) k.1) (rw (append_assoc p.buffer (c ∷ []) text) refl))

  process-encode :
      (p : Plain) (a : Address)
      → IsValid a
      → 0 < a.version
      → process bn h (record p { buffer = Address.encode bn h a ++ codes "@bitmessage" })
        ≡ ok (record p {
          buffer = Address.encode bn h a ++ 0 ∷ codes "bitmessage";
          found = p.found ++ a ∷ [];
        })
  unfolding process accept bytes_eq
  process-encode p a valid pos =
      let text = Address.encode bn h a in
      rw (memchr-plain text (codes "bitmessage") (encode-Plain a)) (
        rw (c_string-plain text (encode-Plain a))
          (rw (decode-encode_address h bn a valid pos) refl))

  -- In brackets, an address is found.
  brackets_found :
      (a : Address) (rest : Bytes) (p : Plain)
      → IsValid a
      → 0 < a.version
      → p.buffer ≡ []
      → brackets bn h p (Address.encode bn h a ++ (codes "@bitmessage" ++ b'>' ∷ rest))
        ≡ ok (
          record p {
            buffer = Address.encode bn h a ++ 0 ∷ codes "bitmessage";
            found = p.found ++ a ∷ [];
          },
          rest,
        )
  brackets_found a rest p valid pos empty =
      let text = Address.encode bn h a in
      let host = codes "@bitmessage" in
      rw⁻¹ (append_assoc text host (b'>' ∷ rest)) (
        brackets-plain (text ++ host) rest p (
          All-append (λ c. (c == b'>') ≡ false) text host (without_bracket text (encode-Plain a))
            (
              refl,
              (refl, (refl, (refl, (refl, (refl, (refl, (refl, (refl, (refl, (refl, tt)))))))))),
            ))
        ∙ rw empty (rw (process-encode p a valid pos) refl))

  -- What a byte of a name does.
  abbrev read_over : ℕ → Plain → Plain
  read_over c p = if c == b' ' then p else put c p

  byte-read_over :
      (c : ℕ) (rest : Bytes) (p : Plain)
      → is_name c ≡ true
      → byte bn h p c rest ≡ ok (read_over c p, rest)
  unfolding byte
  byte-read_over c rest p k = elim (Bool-cases (c == b' ')) [
    | inl e ↦ ground (arith, k, e)
    | inr e ↦ ground (arith, k, e)
  ]

  read_over-kept :
      (c : ℕ) (p : Plain)
      → ((read_over c p).had_address ≡ p.had_address) × ((read_over c p).found ≡ p.found)
  read_over-kept c p = elim (Bool-cases (c == b' ')) [
    | inl e ↦ rw e (refl, refl)
    | inr e ↦ rw e (refl, refl)
  ]

  -- A name is read over.
  read_through :
      (name : Bytes) (fuel : ℕ) (p : Plain) (rest : Bytes) (r : Outcome Plain)
      → Name name
      → length (name ++ rest) ≤ fuel
      → p.had_address ≡ false
      → ((n : ℕ) (q : Plain)
          → length rest ≤ n
          → q.had_address ≡ false
          → q.found ≡ p.found
          → loop bn h n q rest ≡ r)
      → loop bn h fuel p (name ++ rest) ≡ r
  unfolding loop byte
  read_through [] fuel p rest r k short had more = more fuel p short had refl
  read_through (c ∷ name) zero p rest r k short had more = absurd (omega arith)
  read_through (c ∷ name) (suc fuel) p rest r k short had more =
      let (kept, same) = read_over-kept c p in
      ap (λ (m : Outcome (Plain × Bytes)). m >>= λ (q, input). loop bn h fuel q input)
        (byte-read_over c (name ++ rest) p k.0)
      ∙ read_through name fuel (read_over c p) rest r k.1 (omega arith) (kept ∙ had)
          (λ n q enough had' found'. more n q enough had' (found' ∙ same))

  found_through :
      (name : Bytes) (a : Address) (fuel : ℕ) (p : Plain) (rest : Bytes) (r : Outcome Plain)
      → Entry (name, a)
      → length (entry (name, a) rest) ≤ fuel
      → p.had_address ≡ false
      → ((n : ℕ) (q : Plain)
          → length rest ≤ n
          → q.had_address ≡ true
          → q.found ≡ p.found ++ a ∷ []
          → loop bn h n q rest ≡ r)
      → loop bn h fuel p (entry (name, a) rest) ≡ r
  unfolding loop byte
  found_through name a fuel p rest r (k, valid, pos) short had more =
      read_through name fuel p
        (b'<' ∷ (Address.encode bn h a ++ (codes "@bitmessage" ++ b'>' ∷ rest))) r k short had
        inside
    where
      inside :
          (n : ℕ) (q : Plain)
          → length (b'<' ∷ (Address.encode bn h a ++ (codes "@bitmessage" ++ b'>' ∷ rest))) ≤ n
          → q.had_address ≡ false
          → q.found ≡ p.found
          → loop bn h n q (b'<' ∷ (Address.encode bn h a ++ (codes "@bitmessage" ++ b'>' ∷ rest)))
            ≡ r
      inside zero q enough had' found' = absurd (omega arith)
      inside (suc n) q enough had' found' = rw had' (
          rw (brackets_found a rest (record q { buffer = []; had_address = true }) valid pos refl) (
            more n _
              (omega (
                arith,
                enough,
                length-append (Address.encode bn h a) (codes "@bitmessage" ++ b'>' ∷ rest),
              ))
              refl (ap (λ (l : List Address). l ++ a ∷ []) found')))

  -- What the parser has behind a list.
  abbrev behind : Plain → List (Bytes × Address) → Outcome Plain
  behind p entries =
      ok (record { buffer = []; had_address = false; found = p.found ++ map (λ x. x.1) entries })

  loop-listed :
      (entries : List (Bytes × Address)) (e : Bytes × Address) (fuel : ℕ) (p : Plain)
      → All Entry (e ∷ entries)
      → length (listed e entries) ≤ fuel
      → p.had_address ≡ false
      → loop bn h fuel p (listed e entries) ≡ behind p (e ∷ entries)
  unfolding loop byte finish
  loop-listed [] (name, a) fuel p k short had =
      found_through name a fuel p [] _ k.0 short had (λ n q _ had' found'. rw had' (rw found' refl))
  loop-listed (f ∷ entries) (name, a) fuel p k short had =
      found_through name a fuel p (b',' ∷ b' ' ∷ listed f entries) _ k.0 short had
        (later λ m q. loop-listed entries f m q k.1)
    where
      later :
          ((m : ℕ) (q : Plain)
            → length (listed f entries) ≤ m
            → q.had_address ≡ false
            → loop bn h m q (listed f entries) ≡ behind q (f ∷ entries))
          → (n : ℕ) (q : Plain) → length (b',' ∷ b' ' ∷ listed f entries) ≤ n
          → q.had_address ≡ true
          → q.found ≡ p.found ++ a ∷ []
          → loop bn h n q (b',' ∷ b' ' ∷ listed f entries) ≡ behind p ((name, a) ∷ f ∷ entries)
      later rest zero q enough had' found' = absurd (omega arith)
      later rest (suc zero) q enough had' found' = absurd (omega arith)
      later rest (suc (suc n)) q enough had' found' = rw had' (
          rest n (reset (reset q)) (omega (arith, enough)) refl
          ∙ ap (λ (l : List Address). ok (record { buffer = []; had_address = false; found = l }))
              (ap (λ (l : List Address). l ++ map (λ x. x.1) (f ∷ entries)) found'
                ∙ append_assoc p.found (a ∷ []) (map (λ x. x.1) (f ∷ entries))))

-- A list of addresses, each in brackets behind a name without a comma, a quote or an opening bracket, is
-- parsed as these addresses in their order, whatever is in the names; the addresses are valid and their
-- versions are above 0.
pub parse_addresses-listed :
    (bn : BigNum) (h : Digests) (e : Bytes × Address) (entries : List (Bytes × Address))
    → All (Entry bn h) (e ∷ entries)
    → parse_addresses bn h (listed bn h e entries) ≡ ok (map (λ x. x.1) (e ∷ entries))
unfolding plain_addresses
parse_addresses-listed bn h e entries k =
    parse_addresses-plain bn h (listed bn h e entries)
    ∙ ap (λ (m : Outcome Plain). m >>= λ p. ok p.found)
        (loop-listed bn h entries e (length (listed bn h e entries))
          (record { buffer = []; had_address = false; found = [] }) k (omega arith) refl)

-- ===== src/Mail/Addresses.antt =====
-- src/ntb-parse-addresses.c: the parser for a list of addresses. Its input lies in the buffer that it
-- writes the bytes of an address to, in front of what it has not read yet.
pub mod Plain
pub mod Agreeing
pub mod Memory
pub mod InPlace
pub mod Ending
pub mod Written
mod Tests
use notbit.Address
use notbit.Address.{Address, Digests}
use notbit.Base58.{BigNum}
use notbit.Common.{
  ℕ, zero, suc, ◌+◌, ◌*◌, Bytes, List, [], ◌∷◌, ◌++◌, Bool, true, false, ◌==◌, ltb, length, take,
  get_or, set, bytes_eq, if◌then◌else◌, Option, none, some, Outcome, ok, fail, fault, ◌>>=◌,
}
use notbit.Proto.Types.{codes}

-- struct ntb_parse_addresses_data: the bytes of the buffer, its length, and the addresses that were
-- given to the callback, which takes them all.
pub record Data : Type 0 where
  pub memory : Bytes
  pub filled : ℕ
  pub had_address : Bool
  pub found : List Address

abbrev pub reset_data : Data → Data
reset_data d = record d { filled = 0; had_address = false }

-- ntb_buffer_append_c. If there is no room the buffer is moved, and `in` points to where it was.
unfoldable pub append_byte : ℕ → Data → Outcome Data
append_byte c d =
    if ltb d.filled (length d.memory)
    then ok (record d { memory = set d.memory d.filled c; filled = d.filled + 1 })
    else fault

-- `memchr`, with the bytes in front of the first `c` and behind it.
unfoldable pub memchr : ℕ → Bytes → Option (Bytes × Bytes)
memchr c [] = none
memchr c (b ∷ bytes) =
    let later = memchr c bytes in
    if b == c
    then some ([], bytes)
    else elim later [ none ↦ none | some (front, back) ↦ some (b ∷ front, back) ]

-- A C string: the bytes in front of the first zero.
unfoldable pub c_string : Bytes → Bytes
c_string [] = []
c_string (b ∷ bytes) = let rest = c_string bytes in if b == 0 then [] else b ∷ rest

module _ (bn : BigNum) (h : Digests) where
  -- What is done with the name in front of the `@` and the host behind it.
  unfoldable pub deliver : Data → Option (Bytes × Bytes) → Outcome Data
  deliver d none = fail
  deliver d (some (name, host)) =
      let cut = set d.memory (length name) 0 in
      if bytes_eq host (codes "bitmessage")
      then (elim (Address.decode bn h (c_string cut)) [
        | none ↦ fail
        | some address ↦ ok (record d { memory = cut; found = d.found ++ address ∷ [] })
      ])
      else fail

  unfoldable pub process_address : Data → Outcome Data
  unfolding deliver memchr
  process_address d = deliver d (memchr b'@' (take d.filled d.memory))

  unfoldable pub end_address : Data → Outcome Data
  end_address d =
      if d.had_address then ok (reset_data d) else (process_address d >>= λ d'. ok (reset_data d'))

  -- The loop of parse_quotes, from `in` on with `in_length` bytes. A loop gives what it has done, the
  -- place of the first byte that is left, and how many are left. The last byte is not appended if it
  -- is no quote: the loop fails behind it.
  unfoldable pub parse_quotes : Data → (inp in_length : ℕ) → Outcome (Data × ℕ × ℕ)
  parse_quotes d inp zero = fail
  parse_quotes d inp (suc zero) = if get_or d.memory inp 0 == b'"' then ok (d, inp + 1, 0) else fail
  parse_quotes d inp (suc (suc n)) =
      let c = get_or d.memory inp 0 in
      if c == b'"'
      then ok (d, inp + 1, suc n)
      else if c == 92
      then (append_byte (get_or d.memory (inp + 1) 0) d >>= λ d'. parse_quotes d' (inp + 2) n)
      else (append_byte c d >>= λ d'. parse_quotes d' (inp + 1) (suc n))

  -- The loop of parse_brackets.
  unfoldable pub brackets_loop : Data → (inp in_length : ℕ) → Outcome (Data × ℕ × ℕ)
  brackets_loop d inp zero = fail
  brackets_loop d inp (suc n) =
      let c = get_or d.memory inp 0 in
      if c == b'>'
      then (process_address d >>= λ d'. ok (d', inp + 1, n))
      else (append_byte c d >>= λ d'. brackets_loop d' (inp + 1) n)

  unfoldable pub parse_brackets : Data → (inp in_length : ℕ) → Outcome (Data × ℕ × ℕ)
  parse_brackets d inp n =
      if d.had_address
      then fail
      else brackets_loop (record d { filled = 0; had_address = true }) inp n

  -- `switch (*in)`, with `n` bytes behind it.
  unfoldable pub parse_byte : Data → (inp n : ℕ) → Outcome (Data × ℕ × ℕ)
  unfolding parse_quotes parse_brackets
  parse_byte d inp n =
      let c = get_or d.memory inp 0 in
      if c == b','
      then (end_address d >>= λ d'. ok (reset_data d', inp + 1, n))
      else if c == b'"'
      then parse_quotes d (inp + 1) n
      else if c == b'<'
      then parse_brackets d (inp + 1) n
      else if c == b' '
      then ok (d, inp + 1, n)
      else (append_byte c d >>= λ d'. ok (d', inp + 1, n))

  unfoldable pub addresses_loop : ℕ → Data → (inp in_length : ℕ) → Outcome Data
  unfolding parse_byte
  addresses_loop fuel d inp zero = end_address d
  addresses_loop zero d inp (suc n) = fault
  addresses_loop (suc fuel) d inp (suc n) =
      parse_byte d inp n >>= λ (d', inp', n'). addresses_loop fuel d' inp' n'

  -- ntb_parse_addresses
  unfoldable pub parse_addresses : Bytes → Outcome (List Address)
  unfolding addresses_loop
  parse_addresses buffer =
      addresses_loop (length buffer)
        (record { memory = buffer; filled = 0; had_address = false; found = [] }) 0 (length buffer)
      >>= λ d. ok d.found

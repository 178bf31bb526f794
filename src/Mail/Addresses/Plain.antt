-- ===== src/Mail/Addresses/Plain.antt =====
-- The parser for a list of addresses with a buffer of its own for the bytes of an address.
use notbit.Address
use notbit.Address.{Address, Digests}
use notbit.Base58.{BigNum}
use notbit.Common.{
  ℕ, zero, suc, Bytes, List, [], ◌∷◌, ◌++◌, Bool, true, false, ◌==◌, length, bytes_eq,
  if◌then◌else◌, Option, none, some, Outcome, ok, fail, fault, ◌>>=◌,
}
use notbit.Mail.Addresses.{memchr, c_string}
use notbit.Proto.Types.{codes}

pub record Plain : Type 0 where
  pub buffer : Bytes
  pub had_address : Bool
  pub found : List Address

abbrev pub reset : Plain → Plain
reset p = record p { buffer = []; had_address = false }

abbrev pub put : ℕ → Plain → Plain
put c p = record p { buffer = p.buffer ++ c ∷ [] }

module _ (bn : BigNum) (h : Digests) where
  unfoldable pub accept : Plain → Option (Bytes × Bytes) → Outcome Plain
  accept p none = fail
  accept p (some (name, host)) =
      if bytes_eq host (codes "bitmessage")
      then (elim (Address.decode bn h (c_string name)) [
        | none ↦ fail
        | some address ↦
            ok (record p { buffer = name ++ 0 ∷ host; found = p.found ++ address ∷ [] })
      ])
      else fail

  unfoldable pub process : Plain → Outcome Plain
  unfolding accept memchr
  process p = accept p (memchr b'@' p.buffer)

  unfoldable pub finish : Plain → Outcome Plain
  unfolding process
  finish p = if p.had_address then ok (reset p) else (process p >>= λ q. ok (reset q))

  unfoldable pub quotes : Plain → Bytes → Outcome (Plain × Bytes)
  quotes p [] = fail
  quotes p (c ∷ []) = if c == b'"' then ok (p, []) else fail
  quotes p (c ∷ (e ∷ input)) =
      let escaped = quotes (put e p) input in
      let more = quotes (put c p) (e ∷ input) in
      if c == b'"' then ok (p, e ∷ input) else if c == 92 then escaped else more

  unfoldable pub brackets : Plain → Bytes → Outcome (Plain × Bytes)
  unfolding process
  brackets p [] = fail
  brackets p (c ∷ input) =
      let more = brackets (put c p) input in
      if c == b'>' then (process p >>= λ q. ok (q, input)) else more

  unfoldable pub byte : Plain → ℕ → Bytes → Outcome (Plain × Bytes)
  unfolding finish quotes brackets
  byte p c input =
      if c == b','
      then (finish p >>= λ q. ok (reset q, input))
      else if c == b'"'
      then quotes p input
      else if c == b'<'
      then (if p.had_address
          then fail
          else brackets (record p { buffer = []; had_address = true }) input)
      else if c == b' '
      then ok (p, input)
      else ok (put c p, input)

  unfoldable pub loop : ℕ → Plain → Bytes → Outcome Plain
  unfolding byte
  loop fuel p [] = finish p
  loop zero p (c ∷ input) = fault
  loop (suc fuel) p (c ∷ input) = byte p c input >>= λ (q, rest). loop fuel q rest

  -- The addresses of a list.
  unfoldable pub plain_addresses : Bytes → Outcome (List Address)
  unfolding loop
  plain_addresses input =
      loop (length input) (record { buffer = []; had_address = false; found = [] }) input >>= λ p.
      ok p.found

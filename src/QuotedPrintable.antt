-- ===== src/QuotedPrintable.antt =====
-- src/ntb-quoted-printable.c: a decoder that takes its input in pieces. `data->out` is the output that
-- a call returns; none is the result -1, for an invalid escape sequence.
pub mod Automaton
pub mod Refinement
mod Tests
use notbit.Common.{
  ℕ, zero, suc, ◌+◌, ◌-◌, ◌*◌, ◌%◌, Bytes, [], ◌∷◌, ◌++◌, Bool, true, false, ◌||◌, Option, none,
  some, ◌==◌, ltb, leb, take, drop, length, map, if◌then◌else◌,
}

-- enum ntb_quoted_printable_state
pub data Mode : Type 0 where
  octet quote_start skip_spaces soft_cr escaped_octet : Mode

-- struct ntb_quoted_printable_data
pub record State : Type 0 where
  pub mode : Mode
  pub nibble : ℕ
  pub underscore_is_space : Bool

-- ntb_quoted_printable_decode_start leaves the nibble as it is.
abbrev pub start : ℕ → Bool → State
start nibble underscore_is_space = record {
  mode = octet;
  nibble = nibble;
  underscore_is_space = underscore_is_space;
}

-- none stands for -1.
pub hex_value : ℕ → Option ℕ
hex_value ch =
    if leb ch b'9'
    then (if ltb ch b'0' then none else some (ch - b'0'))
    else if leb ch b'F'
    then (if ltb ch b'A' then none else some (ch - b'A' + 10))
    else if leb ch b'f'
    then (if ltb ch b'a' then none else some (ch - b'a' + 10))
    else none

abbrev pub output_octet : Bool → ℕ → ℕ
output_octet underscore_is_space c =
    if underscore_is_space then (if c == b'_' then 32 else c) else c

pub output_octets : Bool → Bytes → Bytes
output_octets underscore_is_space octets = map (output_octet underscore_is_space) octets

-- `memchr` for `=`: its index.
pub find_equals : Bytes → Option ℕ
find_equals [] = none
find_equals (c ∷ input) =
    if c == b'=' then some 0 else elim (find_equals input) [ none ↦ none | some i ↦ some (suc i) ]

-- How many bytes were processed, the new state and the output.
abbrev pub Handled : Type 0
Handled = Option (ℕ × State × Bytes)

pub handle_octet : State → Bytes → Handled
unfolding output_octets
handle_octet d input = elim (find_equals input) [
  | none ↦ some (length input, d, output_octets d.underscore_is_space input)
  | some i ↦
      some
        (i + 1, record d { mode = quote_start }, output_octets d.underscore_is_space (take i input))
]

abbrev pub is_blank : ℕ → Bool
is_blank c = c == 32 || c == 9

pub handle_quote_start : State → ℕ → Handled
handle_quote_start d c = elim (hex_value c) [
  | some nibble ↦ some (1, record d { mode = escaped_octet; nibble = nibble }, [])
  | none ↦
      if is_blank c
      then some (1, record d { mode = skip_spaces }, [])
      else if c == 13
      then some (1, record d { mode = soft_cr }, [])
      else if c == 10
      then some (1, record d { mode = octet }, [])
      else none
]

-- The loop of handle_skip_spaces, behind `skip` bytes.
pub handle_skip_spaces : State → ℕ → Bytes → Handled
handle_skip_spaces d skip [] = some (skip, d, [])
handle_skip_spaces d skip (c ∷ input) =
    if is_blank c
    then handle_skip_spaces d (skip + 1) input
    else if c == 13
    then some (skip + 1, record d { mode = soft_cr }, [])
    else if c == 10
    then some (skip + 1, record d { mode = octet }, [])
    else none

pub handle_soft_cr : State → ℕ → Handled
handle_soft_cr d c = if c == 10 then some (1, record d { mode = octet }, []) else none

pub handle_escaped_octet : State → ℕ → Handled
handle_escaped_octet d c = elim (hex_value c) [
  | none ↦ none
  | some nibble ↦ some (1, record d { mode = octet }, (d.nibble * 16 + nibble) % 256 ∷ [])
]

-- `switch (data->state)`, on an input that is not empty.
pub handle : Mode → State → ℕ → Bytes → Handled
handle octet d c input = handle_octet d (c ∷ input)
handle quote_start d c input = handle_quote_start d c
handle skip_spaces d c input = handle_skip_spaces d 0 (c ∷ input)
handle soft_cr d c input = handle_soft_cr d c
handle escaped_octet d c input = handle_escaped_octet d c

-- The output of one round in front of that of the later ones.
abbrev pub prepend : Bytes → Option (Option (Bytes × State)) → Option (Option (Bytes × State))
prepend octets none = none
prepend octets (some none) = some none
prepend octets (some (some (more, end))) = some (some (octets ++ more, end))

-- The output and the state at the end; the outer none says that the fuel ran out, the inner one
-- that the result is -1.
pub decode_loop : ℕ → State → Bytes → Option (Option (Bytes × State))
decode_loop fuel d [] = some (some ([], d))
decode_loop zero d (c ∷ input) = none
decode_loop (suc fuel) d (c ∷ input) = elim (handle d.mode d c input) [
  | none ↦ some none
  | some (processed, d', octets) ↦ prepend octets (decode_loop fuel d' (drop processed (c ∷ input)))
]

-- Each round processes a byte at least.
pub decode : State → Bytes → Option (Option (Bytes × State))
unfolding decode_loop
decode d input = decode_loop (length input) d input

pub decode_end : State → Bool
decode_end d = elim d.mode [ octet ↦ true | _ ↦ false ]

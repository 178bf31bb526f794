-- ===== src/Proto/Read.antt =====
-- The readers of src/ntb-proto.c: big-endian integers, variable-length integers, timestamps,
-- strings, lists of integers, and ntb_proto_get_command.
use notbit.Common.{
  ℕ, zero, suc, ◌+◌, ◌-◌, ◌*◌, ◌^◌, Bytes, List, [], ◌∷◌, Bool, not, ◌==◌, ltb, leb, take, drop,
  if◌then◌else◌, Outcome, ok, fault, ◌>>=◌, ◌>>◌, fail_if,
}
use notbit.Proto.Types.{
  Argument, uint8, uint16, uint32, uint64, boolean, var_int, timestamp, netaddress, var_str,
  var_int_list, VarStr, VarIntList, NetAddress, ValueOf, Values,
}

-- The pair of `const uint8_t *data` and `uint32_t length` that the readers pass on: the memory from
-- `data` to the end of its object, and how much of it is the message.
pub record Cursor : Type 0 where
  pub mem : Bytes
  pub len : ℕ

-- `data += n; length -= n;`, always under a test that `n` is at most `length`.
abbrev pub advance : ℕ → Cursor → Cursor
advance n c = record { mem = drop n c.mem; len = c.len - n }

-- `n` bytes, the most significant first.
unfoldable pub read_be : ℕ → ℕ → Bytes → Outcome ℕ
read_be zero acc mem = ok acc
read_be (suc n) acc [] = fault
read_be (suc n) acc (b ∷ mem) = read_be n (acc * 256 + b) mem

unfoldable pub get_8 : Bytes → Outcome ℕ
get_8 [] = fault
get_8 (b ∷ mem) = ok b

unfoldable pub get_16 : Bytes → Outcome ℕ
unfolding read_be
get_16 p = read_be 2 0 p

unfoldable pub get_32 : Bytes → Outcome ℕ
unfolding read_be
get_32 p = read_be 4 0 p

unfoldable pub get_64 : Bytes → Outcome ℕ
unfolding read_be
get_64 p = read_be 8 0 p

-- A read of `n` bytes behind the test `if (length < n) return`.
abbrev pub get_field : ℕ → (Bytes → Outcome ℕ) → Cursor → Outcome (ℕ × Cursor)
get_field n get c = do fail_if (ltb c.len n); v ← get c.mem; ok (v, advance n c)

-- A prefix byte and an integer of `n` bytes behind it.
abbrev pub get_prefixed : ℕ → (Bytes → Outcome ℕ) → Cursor → Outcome (ℕ × Cursor)
get_prefixed n get c = do
  fail_if (ltb c.len (n + 1))
  v ← get (drop 1 c.mem)
  ok (v, advance (n + 1) c)

-- `int length = *length_ptr` is negative from 2 ^ 31 on. The first byte is read before the length
-- is tested against 1.
unfoldable pub get_var_int : Cursor → Outcome (ℕ × Cursor)
unfolding get_8
get_var_int c = do
  fail_if (leb (2 ^ 31) c.len)
  b ← get_8 c.mem
  if ltb b 0xfd
      then (get_field 1 get_8 c)
      else if b == 0xfd
      then get_prefixed 2 get_16 c
      else if b == 0xfe
      then get_prefixed 4 get_32 c
      else get_prefixed 8 get_64 c

unfoldable pub get_timestamp : Cursor → Outcome (ℕ × Cursor)
get_timestamp c = do
  (v, c') ← get_field 4 get_32 c
  if v == 0 then get_field 4 get_32 c' else ok (v, c')

unfoldable pub get_var_str : Cursor → Outcome (VarStr × Cursor)
get_var_str c = do
  (n, c') ← get_var_int c
  fail_if (ltb c'.len n)
  ok (record { size = n; bytes = take n c'.mem }, advance n c')

-- The loop over `i < n_ints`, which drops the values.
unfoldable pub skip_var_ints : ℕ → Cursor → Outcome Cursor
skip_var_ints zero c = ok c
skip_var_ints (suc n) c = do (_, c') ← get_var_int c; skip_var_ints n c'

unfoldable pub get_var_int_list : Cursor → Outcome (VarIntList × Cursor)
get_var_int_list c = do
  (n, c') ← get_var_int c
  end ← skip_var_ints n c'
  ok (record { n_ints = n; values = c'.mem }, end)

unfoldable pub get_bool : Cursor → Outcome (Bool × Cursor)
get_bool c = do (v, c') ← get_field 1 get_8 c; ok (not (v == 0), c')

unfoldable pub get_netaddress : Cursor → Outcome (NetAddress × Cursor)
get_netaddress c = do
  fail_if (ltb c.len (16 + 2))
  port ← get_16 (drop 16 c.mem)
  ok (record { host = take 16 c.mem; port = port }, advance (2 + 16) c)

-- One round of the loop of ntb_proto_get_command_va_list.
unfoldable pub get_argument : (a : Argument) → Cursor → Outcome (ValueOf a × Cursor)
get_argument uint8 c = get_field 1 get_8 c
get_argument uint16 c = get_field 2 get_16 c
get_argument uint32 c = get_field 4 get_32 c
get_argument uint64 c = get_field 8 get_64 c
get_argument boolean c = get_bool c
get_argument var_int c = get_var_int c
get_argument timestamp c = get_timestamp c
get_argument netaddress c = get_netaddress c
get_argument var_str c = get_var_str c
get_argument var_int_list c = get_var_int_list c

-- ntb_proto_get_command. The callers add its result to `data` and take it from the length, which
-- gives the cursor that is returned here; its result -1 is `fail`.
unfoldable pub get_command : (args : List Argument) → Cursor → Outcome (Values args × Cursor)
get_command [] c = ok (tt, c)
get_command (a ∷ args) c = do
  (v, c') ← get_argument a c
  (vs, end) ← get_command args c'
  ok ((v, vs), end)

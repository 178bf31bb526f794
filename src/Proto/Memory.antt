-- ===== src/Proto/Memory.antt =====
-- Which memory the readers touch: none outside the object, if a byte stands behind the message.
use notbit.Common.{
  ℕ, zero, suc, ◌+◌, ◌*◌, ◌≤◌, ◌<◌, ◌≢◌, arith, Bytes, List, [], ◌∷◌, length, drop, fault,
  >>=-ne-fault, length-drop, Outcome,
}
use notbit.Proto.Types.{Argument}
use notbit.Proto.Read.{
  Cursor, get_field, get_prefixed, read_be, get_8, get_16, get_32, get_64, get_var_int,
  get_timestamp, get_bool, get_netaddress, get_var_str, get_var_int_list, skip_var_ints,
  get_argument, get_command,
}
use notbit.Proto.Bounds.{Moves, get_var_int-Moves, get_field-Moves, get_argument-Moves}

-- At least one byte of the object stands behind the message.
abbrev pub IsBacked : Cursor → Type 0
IsBacked c = c.len < length c.mem

pub Moves-IsBacked : {c d : Cursor} → Moves c d → IsBacked c → IsBacked d
Moves-IsBacked {c} {d} m b = rw m.points (rw length-drop (omega arith))

read_be-ne-fault : (n acc : ℕ) (mem : Bytes) → n ≤ length mem → read_be n acc mem ≢ fault
unfolding read_be
read_be-ne-fault zero acc mem h e = cc
read_be-ne-fault (suc n) acc [] h e = absurd (omega arith)
read_be-ne-fault (suc n) acc (b ∷ mem) h e = read_be-ne-fault n (acc * 256 + b) mem (omega arith) e

get_8-ne-fault : (mem : Bytes) → 1 ≤ length mem → get_8 mem ≢ fault
unfolding get_8
get_8-ne-fault [] h e = absurd (omega arith)
get_8-ne-fault (b ∷ mem) h e = cc

get_16-ne-fault : (mem : Bytes) → 2 ≤ length mem → get_16 mem ≢ fault
unfolding get_16
get_16-ne-fault mem h = read_be-ne-fault 2 0 mem h

pub get_32-ne-fault : (mem : Bytes) → 4 ≤ length mem → get_32 mem ≢ fault
unfolding get_32
get_32-ne-fault mem h = read_be-ne-fault 4 0 mem h

pub get_64-ne-fault : (mem : Bytes) → 8 ≤ length mem → get_64 mem ≢ fault
unfolding get_64
get_64-ne-fault mem h = read_be-ne-fault 8 0 mem h

module _ (n : ℕ) (get : Bytes → Outcome ℕ) (safe : (mem : Bytes) → n ≤ length mem → get mem ≢ fault)
    (c : Cursor) (backed : IsBacked c) where
  get_field-ne-fault : get_field n get c ≢ fault
  get_field-ne-fault = ground (arith, safe c.mem)

  get_prefixed-ne-fault : get_prefixed n get c ≢ fault
  get_prefixed-ne-fault = ground (arith, safe (drop 1 c.mem), length-drop 1 c.mem)

pub get_var_int-ne-fault : (c : Cursor) → IsBacked c → get_var_int c ≢ fault
unfolding get_var_int
get_var_int-ne-fault c b = ground (
  arith,
  get_8-ne-fault c.mem,
  get_field-ne-fault 1 get_8 get_8-ne-fault c b,
  get_prefixed-ne-fault 2 get_16 get_16-ne-fault c b,
  get_prefixed-ne-fault 4 get_32 get_32-ne-fault c b,
  get_prefixed-ne-fault 8 get_64 get_64-ne-fault c b,
)

get_timestamp-ne-fault : (c : Cursor) → IsBacked c → get_timestamp c ≢ fault
unfolding get_timestamp
get_timestamp-ne-fault c b =
    >>=-ne-fault (get_field 4 get_32 c) _ (get_field-ne-fault 4 get_32 get_32-ne-fault c b)
      λ (w, c') e.
        let b' = Moves-IsBacked (get_field-Moves 4 get_32 c c' w e) b in
        ground (arith, get_field-ne-fault 4 get_32 get_32-ne-fault c' b')

skip_var_ints-ne-fault : (n : ℕ) (c : Cursor) → IsBacked c → skip_var_ints n c ≢ fault
unfolding skip_var_ints
skip_var_ints-ne-fault zero c b = λ e. cc
skip_var_ints-ne-fault (suc n) c b =
    >>=-ne-fault (get_var_int c) _ (get_var_int-ne-fault c b)
      λ (w, c') e. skip_var_ints-ne-fault n c' (Moves-IsBacked (get_var_int-Moves c c' w e) b)

get_var_int_list-ne-fault : (c : Cursor) → IsBacked c → get_var_int_list c ≢ fault
unfolding get_var_int_list
get_var_int_list-ne-fault c b =
    >>=-ne-fault (get_var_int c) _ (get_var_int-ne-fault c b) λ (n, c') e.
      ground (arith, skip_var_ints-ne-fault n c' (Moves-IsBacked (get_var_int-Moves c c' n e) b))

get_argument-ne-fault : (a : Argument) (c : Cursor) → IsBacked c → get_argument a c ≢ fault
unfolding get_argument
get_argument-ne-fault Argument.uint8 c b = get_field-ne-fault 1 get_8 get_8-ne-fault c b
get_argument-ne-fault Argument.uint16 c b = get_field-ne-fault 2 get_16 get_16-ne-fault c b
get_argument-ne-fault Argument.uint32 c b = get_field-ne-fault 4 get_32 get_32-ne-fault c b
get_argument-ne-fault Argument.uint64 c b = get_field-ne-fault 8 get_64 get_64-ne-fault c b
get_argument-ne-fault Argument.boolean c b =
    unfold get_bool in ground (arith, get_field-ne-fault 1 get_8 get_8-ne-fault c b)
get_argument-ne-fault Argument.var_int c b = get_var_int-ne-fault c b
get_argument-ne-fault Argument.timestamp c b = get_timestamp-ne-fault c b
get_argument-ne-fault Argument.netaddress c b =
    unfold get_netaddress in ground (arith, get_16-ne-fault (drop 16 c.mem), length-drop 16 c.mem)
get_argument-ne-fault Argument.var_str c b =
    unfold get_var_str in ground (arith, get_var_int-ne-fault c b)
get_argument-ne-fault Argument.var_int_list c b = get_var_int_list-ne-fault c b

-- If a byte of the object stands behind the message, ntb_proto_get_command reads nothing outside
-- the object, whatever the bytes and the arguments.
pub get_command-ne-fault :
    (args : List Argument) (c : Cursor) → IsBacked c → get_command args c ≢ fault
unfolding get_command
get_command-ne-fault [] c b = λ e. cc
get_command-ne-fault (a ∷ args) c b =
    >>=-ne-fault (get_argument a c) _ (get_argument-ne-fault a c b) λ (v, c') e.
      ground
        (arith, get_command-ne-fault args c' (Moves-IsBacked (get_argument-Moves a c c' v e) b))

-- ===== src/Proto/Write.antt =====
-- The writers of src/ntb-proto.c and src/ntb-proto.h. A buffer is seen through its contents, which
-- `Buffer` justifies. SHA512 and the clock are parameters.
use notbit.Common.{
  ℕ, zero, suc, ◌+◌, ◌-◌, ◌/◌, ◌%◌, ◌^◌, Bytes, List, [], ◌∷◌, ◌++◌, Bool, ltb, leb, take, drop,
  length, replicate, if◌then◌else◌, Outcome, ok, fault, ◌>>=◌,
}
use notbit.Proto.Types.{NetAddress, magic, header_size}

-- The `n` low bytes of a value, the most significant first.
unfoldable pub be_bytes : ℕ → ℕ → Bytes
be_bytes zero v = []
be_bytes (suc n) v = (v / 256 ^ n % 256) ∷ be_bytes n v

unfoldable pub add_8 : Bytes → ℕ → Bytes
add_8 buf value = buf ++ (value % 256) ∷ []

unfoldable pub add_16 : Bytes → ℕ → Bytes
unfolding be_bytes
add_16 buf value = buf ++ be_bytes 2 value

unfoldable pub add_32 : Bytes → ℕ → Bytes
unfolding be_bytes
add_32 buf value = buf ++ be_bytes 4 value

unfoldable pub add_64 : Bytes → ℕ → Bytes
unfolding be_bytes
add_64 buf value = buf ++ be_bytes 8 value

unfoldable pub add_bool : Bytes → Bool → Bytes
add_bool buf value = add_8 buf (if value then 1 else 0)

unfoldable pub add_var_int : Bytes → ℕ → Bytes
unfolding add_8 add_16 add_32 add_64
add_var_int buf value =
    if ltb value 0xfd
    then add_8 buf value
    else if leb value 0xffff
    then add_16 (add_8 buf 0xfd) value
    else if leb value 0xffff_ffff
    then add_32 (add_8 buf 0xfe) value
    else add_64 (add_8 buf 0xff) value

-- `now` is what `time` returns.
unfoldable pub add_timestamp : ℕ → Bytes → Bytes
add_timestamp now buf = add_64 buf now

unfoldable pub add_netaddress : Bytes → NetAddress → Bytes
add_netaddress buf address = add_16 (buf ++ address.host) address.port

-- `uint8_t len = strlen(str)` keeps the low byte of the length.
unfoldable pub add_var_str : Bytes → Bytes → Bytes
add_var_str buf str = let len = length str % 256 in buf ++ (len ∷ []) ++ take len str

-- `memcpy` into a buffer at an offset that lies in it.
abbrev pub write_at : Bytes → ℕ → Bytes → Bytes
write_at buf offset bytes = take offset buf ++ (bytes ++ drop (offset + length bytes) buf)

-- `junk` is what the 8 bytes for the length and the checksum hold so far. A command of more than 12
-- bytes makes the size of the `memset` negative.
unfoldable pub begin_command : Bytes → Bytes → Bytes → Outcome Bytes
begin_command junk buf command =
    if ltb 12 (length command)
    then fault
    else ok (buf ++ (magic ++ (command ++ (replicate (12 - length command) 0 ++ junk))))

unfoldable pub end_command : (Bytes → Bytes) → Bytes → ℕ → Bytes
end_command sha512 buf command_start =
    let payload_length = (length buf - command_start - header_size) % 2 ^ 32 in
    let buf' = write_at buf (command_start + 16) (be_bytes 4 payload_length) in
    write_at buf' (command_start + 20)
      (take 4 (sha512 (take payload_length (drop (command_start + header_size) buf'))))

-- What follows an argument code in the argument list of ntb_proto_add_command. A code
-- NTB_PROTO_ARGUMENT_VAR_INT_LIST stops the program by an assertion.
pub data Item : Type 0 where
  uint8 uint16 uint32 uint64 var_int : ℕ → Item
  boolean : Bool → Item
  timestamp : Item
  netaddress : NetAddress → Item
  var_str : Bytes → Item

unfoldable pub add_item : ℕ → Bytes → Item → Bytes
unfolding add_var_int add_bool add_timestamp add_netaddress add_var_str
add_item now buf (Item.uint8 v) = add_8 buf v
add_item now buf (Item.uint16 v) = add_16 buf v
add_item now buf (Item.uint32 v) = add_32 buf v
add_item now buf (Item.uint64 v) = add_64 buf v
add_item now buf (Item.var_int v) = add_var_int buf v
add_item now buf (Item.boolean v) = add_bool buf v
add_item now buf Item.timestamp = add_timestamp now buf
add_item now buf (Item.netaddress v) = add_netaddress buf v
add_item now buf (Item.var_str v) = add_var_str buf v

-- The loop of ntb_proto_add_command_va_list.
unfoldable pub add_items : ℕ → Bytes → List Item → Bytes
unfolding add_item
add_items now buf [] = buf
add_items now buf (item ∷ items) = add_items now (add_item now buf item) items

unfoldable pub add_command : (Bytes → Bytes) → ℕ → Bytes → Bytes → Bytes → List Item → Outcome Bytes
unfolding begin_command
add_command sha512 now junk buf command items = do
  begun ← begin_command junk buf command
  ok (end_command sha512 (add_items now begun items) (length buf))

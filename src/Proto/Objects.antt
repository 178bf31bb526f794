-- ===== src/Proto/Objects.antt =====
-- ntb_proto_get_decrypted_msg and ntb_proto_get_pubkey of src/ntb-proto.c.
use notbit.Common.{
  ℕ, ◌+◌, ◌-◌, ◌*◌, Bytes, Bool, not, ◌==◌, ltb, leb, take, drop, length, if◌then◌else◌, [], ◌∷◌,
  Outcome, ok, fail, ◌>>=◌, ◌>>◌, fail_if,
}
use notbit.Proto.Types.{
  uint32, uint64, var_int, timestamp, DecryptedMsg, Pubkey, raw_key_size, ripe_size,
  min_nonce_trials_per_byte, min_extra_bytes,
}
use notbit.Proto.Read.{Cursor, advance, get_32, get_var_int, get_command}

-- The fields that a sender's address version from 3 on has behind the keys, and their defaults.
unfoldable pub get_pow_fields : ℕ → Cursor → Outcome (ℕ × ℕ × Cursor)
unfolding get_command
get_pow_fields address_version c =
    if leb 3 address_version
    then (do
      ((trials, (extra, _)), c') ← get_command (var_int ∷ var_int ∷ []) c
      ok (trials, extra, c'))
    else ok (min_nonce_trials_per_byte, min_extra_bytes, c)

-- The signed length is the distance between two pointers into one object.
unfoldable pub get_decrypted_msg : Cursor → Outcome DecryptedMsg
unfolding get_pow_fields get_command get_var_int
get_decrypted_msg start = do
  ((message_version, (address_version, (stream, (behaviors, _)))), c₁) ←
      get_command (var_int ∷ var_int ∷ var_int ∷ uint32 ∷ []) start
  fail_if (ltb c₁.len (raw_key_size * 2))
  (trials, extra, c₃) ← get_pow_fields address_version (advance (raw_key_size * 2) c₁)
  fail_if (ltb c₃.len ripe_size)
  ((encoding, (message_length, _)), c₅) ←
      get_command (var_int ∷ var_int ∷ []) (advance ripe_size c₃)
  fail_if (ltb c₅.len message_length)
  (ack_length, c₇) ← get_var_int (advance message_length c₅)
  fail_if (ltb c₇.len ack_length)
  (sig_length, c₉) ← get_var_int (advance ack_length c₇)
  fail_if (not (c₉.len == sig_length))
  ok (record {
    sender_signing_key = take raw_key_size c₁.mem;
    sender_encryption_key = take raw_key_size (drop raw_key_size c₁.mem);
    message_version = message_version;
    sender_address_version = address_version;
    sender_stream_number = stream;
    sender_behaviors = behaviors;
    nonce_trials_per_byte = trials;
    extra_bytes = extra;
    destination_ripe = take ripe_size c₃.mem;
    encoding = encoding;
    message = take message_length c₅.mem;
    message_length = message_length;
    ack = take ack_length c₇.mem;
    ack_length = ack_length;
    sig = take sig_length c₉.mem;
    sig_length = sig_length;
    signed_data_length = length start.mem - length (drop ack_length c₇.mem);
  })

-- `behaviours` and the two keys, which versions 2 and 3 begin with.
abbrev set_keys : ℕ → Cursor → Pubkey → Pubkey
set_keys behaviours c pubkey = record pubkey {
  behaviours = behaviours;
  public_signing_key = take raw_key_size (drop 4 c.mem);
  public_encryption_key = take raw_key_size (drop (4 + raw_key_size) c.mem);
}

unfoldable pub process_v2_pubkey_parts : Cursor → Pubkey → Outcome Pubkey
unfolding get_32
process_v2_pubkey_parts c pubkey = do
  fail_if (ltb c.len (raw_key_size * 2 + 4))
  behaviours ← get_32 c.mem
  ok (record (set_keys behaviours c pubkey) {
    nonce_trials_per_byte = min_nonce_trials_per_byte;
    extra_bytes = min_extra_bytes;
  })

-- `signed_data` is where the signed part starts; its length runs up to the signature's length.
unfoldable pub process_v3_pubkey_parts : Bytes → Cursor → Pubkey → Outcome Pubkey
unfolding get_32 get_command get_var_int
process_v3_pubkey_parts signed_data c pubkey = do
  fail_if (ltb c.len (4 + raw_key_size * 2))
  behaviours ← get_32 c.mem
  ((trials, (extra, _)), c₂) ←
      get_command (var_int ∷ var_int ∷ []) (advance (4 + raw_key_size * 2) c)
  (signature_length, c₃) ← get_var_int c₂
  fail_if (not (c₃.len == signature_length))
  let signed_data_length = length signed_data - length c₂.mem
  ok (record (set_keys behaviours c pubkey) {
    nonce_trials_per_byte = trials;
    extra_bytes = extra;
    signed_data_length = signed_data_length;
    signed_data = take signed_data_length signed_data;
    signature_length = signature_length;
    signature = take signature_length c₃.mem;
  })

unfoldable pub process_v4_pubkey_parts : Cursor → Pubkey → Outcome Pubkey
process_v4_pubkey_parts c pubkey = do
  fail_if (ltb c.len 32)
  ok (record pubkey {
    tag = take 32 c.mem;
    encrypted_data = take (c.len - 32) (drop 32 c.mem);
    encrypted_data_length = c.len - 32;
  })

abbrev pub blank_pubkey : Pubkey
blank_pubkey = record {
  nonce = 0;
  timestamp = 0;
  stream = 0;
  version = 0;
  behaviours = 0;
  public_signing_key = [];
  public_encryption_key = [];
  nonce_trials_per_byte = 0;
  extra_bytes = 0;
  signature_length = 0;
  signature = [];
  signed_data_length = 0;
  signed_data = [];
  tag = [];
  encrypted_data_length = 0;
  encrypted_data = [];
}

abbrev pub set_header : ℕ → ℕ → ℕ → ℕ → Pubkey
set_header nonce time version stream = record blank_pubkey {
  nonce = nonce;
  timestamp = time;
  version = version;
  stream = stream;
}

-- `switch (pubkey->version)`; version 4 falls through to version 3 if the object is decrypted.
-- The signed part starts behind the nonce of 8 bytes.
unfoldable pub get_pubkey : Bool → Cursor → Outcome Pubkey
unfolding get_command process_v2_pubkey_parts process_v3_pubkey_parts process_v4_pubkey_parts
get_pubkey decrypted start = do
  ((nonce, (time, (version, (stream, _)))), c) ←
      get_command (uint64 ∷ timestamp ∷ var_int ∷ var_int ∷ []) start
  let pubkey = set_header nonce time version stream
  if version == 2
      then process_v2_pubkey_parts c pubkey
      else if version == 4
      then (if decrypted
          then process_v3_pubkey_parts (drop 8 start.mem) c pubkey
          else process_v4_pubkey_parts c pubkey)
      else if version == 3
      then process_v3_pubkey_parts (drop 8 start.mem) c pubkey
      else fail

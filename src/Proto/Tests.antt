-- ===== src/Proto/Tests.antt =====
-- The theorems on the protocol at concrete messages.
use notbit.Common.{
  All, ◌+◌, ◌≡◌, ◌≢◌, ◌<◌, ◌^◌, refl, arith, Bytes, List, [], ◌∷◌, ◌++◌, true, map, length,
  replicate, take, drop, ok, fault,
}
use notbit.Proto.Types.{Argument, DecryptedMsg, Pubkey, codes, raw_key_size}
use notbit.Proto.Read.{
  Cursor, get_16, get_32, get_64, read_be, get_8, get_var_int, get_timestamp, get_argument,
  get_command,
}
use notbit.Proto.Write.{
  be_bytes, add_8, add_16, add_32, add_64, add_bool, add_var_int, add_timestamp, add_netaddress,
  add_var_str, Item, add_item, add_items,
}
use notbit.Proto.Objects.{get_decrypted_msg, get_pow_fields, get_pubkey, process_v3_pubkey_parts}
use notbit.Proto.RoundTrip.{Fits, argument_of, cursor, at_rest, values_of, get_command-add_items}
use notbit.Proto.Memory.{get_command-ne-fault}
use notbit.Proto.Messages.{IsWhole, get_decrypted_msg-IsWhole}
use notbit.Proto.Pubkeys.{IsAccepted, get_pubkey-IsAccepted}
use notbit.Proto.Overread.{get_command-overread}

abbrev items : List Item
items =
    Item.uint8 3
    ∷ (Item.uint16 500
        ∷ (Item.var_int 70000
            ∷ (Item.timestamp
                ∷ (Item.netaddress (record { host = replicate 16 1; port = 8444 })
                    ∷ (Item.var_str (codes "hi") ∷ (Item.boolean true ∷ []))))))

short_items : length (add_items 1000 [] items) + 1 < 2 ^ 31
unfolding add_items add_item add_8 add_16 add_32 add_64 add_bool add_var_int add_timestamp
    add_netaddress add_var_str be_bytes
short_items = omega arith

items_fit : All (Fits 1000) items
items_fit = (
  omega arith,
  (omega arith, (omega arith, (omega arith, ((refl, omega arith), (omega arith, (tt, tt)))))),
)

get_command-add_items_example :
    get_command (map argument_of items) (cursor (add_items 1000 [] items) (9 ∷ []) 1)
    ≡ ok (values_of 1000 items, at_rest (9 ∷ []) 1)
get_command-add_items_example = get_command-add_items 1000 items 1 (9 ∷ []) items_fit short_items

-- Bytes of every kind of field; the message is one byte shorter than the object.
abbrev object : Cursor
object = record { mem = 1 ∷ (0xfd ∷ (1 ∷ (2 ∷ (7 ∷ [])))); len = 4 }

get_command-ne-fault_example :
    get_command (Argument.uint8 ∷ (Argument.var_int ∷ (Argument.var_int ∷ []))) object ≢ fault
get_command-ne-fault_example =
    get_command-ne-fault (Argument.uint8 ∷ (Argument.var_int ∷ (Argument.var_int ∷ []))) object
      (omega arith)

-- A message whose signature is one byte.
abbrev message : Bytes
message =
    1
    ∷ (2
        ∷ (1
            ∷ (0
                ∷ (0
                    ∷ (0
                        ∷ (1
                            ∷ (replicate 148 5
                                ++ (1 ∷ (2 ∷ (104 ∷ (105 ∷ (0 ∷ (1 ∷ (77 ∷ []))))))))))))))

abbrev message_fields : DecryptedMsg
message_fields = record {
  sender_signing_key = replicate raw_key_size 5;
  sender_encryption_key = replicate raw_key_size 5;
  message_version = 1;
  sender_address_version = 2;
  sender_stream_number = 1;
  sender_behaviors = 1;
  nonce_trials_per_byte = 320;
  extra_bytes = 14000;
  destination_ripe = replicate 20 5;
  encoding = 1;
  message = 104 ∷ (105 ∷ []);
  message_length = 2;
  ack = [];
  ack_length = 0;
  sig = 77 ∷ [];
  sig_length = 1;
  signed_data_length = 160;
}

get_decrypted_msg-IsWhole_example : IsWhole (record { mem = message; len = 162 }) message_fields
unfolding get_decrypted_msg get_pow_fields get_command get_argument get_var_int get_8 get_16 get_32
    read_be
get_decrypted_msg-IsWhole_example =
    get_decrypted_msg-IsWhole (record { mem = message; len = 162 }) (omega arith) message_fields
      refl

-- A key of version 4, decrypted: a nonce of 8 bytes, the time 5, version 4, stream 1, the keys, the
-- two settings 1 and 2, and a signature of one byte.
abbrev key_object : Bytes
key_object =
    replicate 8 0
    ++ (0
        ∷ (0
            ∷ (0
                ∷ (5
                    ∷ (4
                        ∷ (1
                            ∷ (0
                                ∷ (0
                                    ∷ (0
                                        ∷ (1
                                            ∷ (replicate 128 6
                                                ++ (1 ∷ (2 ∷ (1 ∷ (77 ∷ [])))))))))))))))

abbrev key_fields : Pubkey
key_fields = record {
  nonce = 0;
  timestamp = 5;
  stream = 1;
  version = 4;
  behaviours = 1;
  public_signing_key = replicate raw_key_size 6;
  public_encryption_key = replicate raw_key_size 6;
  nonce_trials_per_byte = 1;
  extra_bytes = 2;
  signature_length = 1;
  signature = 77 ∷ [];
  signed_data_length = 140;
  signed_data = take 140 (drop 8 key_object);
  tag = [];
  encrypted_data_length = 0;
  encrypted_data = [];
}

get_pubkey-IsAccepted_example : IsAccepted true (record { mem = key_object; len = 150 }) key_fields
unfolding get_pubkey process_v3_pubkey_parts get_command get_argument get_timestamp get_var_int
    get_8 get_16 get_32 get_64 read_be
get_pubkey-IsAccepted_example =
    get_pubkey-IsAccepted true (record { mem = key_object; len = 150 }) (omega arith) key_fields
      refl

-- A hash that says only how long its argument is.
abbrev hash : Bytes → Bytes
hash bytes = length bytes ∷ replicate 63 0

get_command-overread_example :
    get_command
      (map argument_of items ++ (Argument.var_int ∷ []))
      (at_rest (add_items 1000 [] items) (length (add_items 1000 [] items)))
    ≡ fault
get_command-overread_example =
    get_command-overread 1000 items [] items_fit (omega (arith, short_items))

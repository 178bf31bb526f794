-- ===== src/Proto/Types.antt =====
-- The data of src/ntb-proto.h: enumerations, constants and parsed structures, with the small
-- tables of src/ntb-proto.c over them.
use Prim.Native.Char.{code}
use Prim.Native.String.{String}
use notbit.Common.{
  ℕ, ◌+◌, ◌*◌, ◌/◌, Bytes, List, [], ◌∷◌, Bool, true, false, ◌==◌, take, if◌then◌else◌,
}

-- enum ntb_proto_inv_type
pub data InvType : Type 0 where
  getpubkey pubkey msg broadcast : InvType

-- enum ntb_proto_argument; the end of a list of these stands for NTB_PROTO_ARGUMENT_END.
pub data Argument : Type 0 where
  uint8 uint16 uint32 uint64 boolean var_int timestamp netaddress var_str var_int_list : Argument

-- struct ntb_proto_var_str; `bytes` is what `data` points at, `length` bytes long.
pub record VarStr : Type 0 where
  pub size : ℕ
  pub bytes : Bytes

-- struct ntb_proto_var_int_list; `values` points at the first integer.
pub record VarIntList : Type 0 where
  pub n_ints : ℕ
  pub values : Bytes

-- The fields that the wire format has of struct ntb_netaddress.
pub record NetAddress : Type 0 where
  pub host : Bytes
  pub port : ℕ

-- The type of the out-parameter that belongs to an argument.
abbrev pub ValueOf : Argument → Type 0
ValueOf boolean = Bool
ValueOf netaddress = NetAddress
ValueOf var_str = VarStr
ValueOf var_int_list = VarIntList
ValueOf _ = ℕ

abbrev pub Values : List Argument → Type 0
Values [] = Unit
Values (a ∷ rest) = ValueOf a × Values rest

-- struct ntb_proto_decrypted_msg. A pointer field is the bytes that it spans.
pub record DecryptedMsg : Type 0 where
  pub sender_signing_key : Bytes
  pub sender_encryption_key : Bytes
  pub message_version : ℕ
  pub sender_address_version : ℕ
  pub sender_stream_number : ℕ
  pub sender_behaviors : ℕ
  pub nonce_trials_per_byte : ℕ
  pub extra_bytes : ℕ
  pub destination_ripe : Bytes
  pub encoding : ℕ
  pub message : Bytes
  pub message_length : ℕ
  pub ack : Bytes
  pub ack_length : ℕ
  pub sig : Bytes
  pub sig_length : ℕ
  pub signed_data_length : ℕ

-- struct ntb_proto_pubkey. `memset` starts every field at zero, and a null pointer is `[]`.
pub record Pubkey : Type 0 where
  pub nonce : ℕ
  pub timestamp : ℕ
  pub stream : ℕ
  pub version : ℕ
  pub behaviours : ℕ
  pub public_signing_key : Bytes
  pub public_encryption_key : Bytes
  pub nonce_trials_per_byte : ℕ
  pub extra_bytes : ℕ
  pub signature_length : ℕ
  pub signature : Bytes
  pub signed_data_length : ℕ
  pub signed_data : Bytes
  pub tag : Bytes
  pub encrypted_data_length : ℕ
  pub encrypted_data : Bytes

abbrev pub header_size : ℕ
header_size = 4 + 12 + 4 + 4

abbrev pub min_nonce_trials_per_byte : ℕ
min_nonce_trials_per_byte = 320

abbrev pub min_extra_bytes : ℕ
min_extra_bytes = 14000

-- NTB_ECC_PUBLIC_KEY_SIZE - 1, the key without its 0x04 prefix
abbrev pub raw_key_size : ℕ
raw_key_size = 64

-- RIPEMD160_DIGEST_LENGTH
abbrev pub ripe_size : ℕ
ripe_size = 20

abbrev pub magic : Bytes
magic = 0xe9 ∷ 0xbe ∷ 0xb4 ∷ 0xd9 ∷ []

-- The bytes of an ASCII literal, without the final zero.
abbrev pub codes : String → Bytes
codes String.[] = []
codes (String.◌∷◌ c s) = code c ∷ codes s

-- ntb_proto_get_max_age_for_type
unfoldable pub get_max_age_for_type : InvType → ℕ
get_max_age_for_type pubkey = 4 * 7 * 24 * 60 * 60
get_max_age_for_type msg = 24 * 60 * 60 * 5 / 2
get_max_age_for_type getpubkey = 24 * 60 * 60 * 5 / 2
get_max_age_for_type broadcast = 24 * 60 * 60 * 5 / 2

-- ntb_proto_get_command_name_for_type
unfoldable pub get_command_name_for_type : InvType → Bytes
get_command_name_for_type getpubkey = codes "getpubkey"
get_command_name_for_type msg = codes "msg"
get_command_name_for_type broadcast = codes "broadcast"
get_command_name_for_type pubkey = codes "pubkey"

unfoldable pub all_zero : Bytes → Bool
all_zero [] = true
all_zero (b ∷ bs) = if b == 0 then all_zero bs else false

-- `memchr` for the zero that ends the command; the bytes behind it must be zero.
unfoldable pub is_padded : Bytes → Bool
is_padded [] = false
is_padded (b ∷ bs) = if b == 0 then all_zero bs else is_padded bs

-- ntb_proto_check_command_string looks at 12 bytes.
unfoldable pub check_command_string : Bytes → Bool
unfolding all_zero is_padded
check_command_string command_string = is_padded (take 12 command_string)

-- ===== src/Address.antt =====
-- src/ntb-address.c: addresses as text, their checksum, and their derivation from keys.
pub mod RoundTrip
pub mod Keys
pub mod Instance
mod Tests
use notbit.Common.{
  All, IsByte, ℕ, zero, suc, ◌+◌, ◌-◌, ◌≡◌, Bytes, [], ◌∷◌, ◌++◌, Bool, ◌&&◌, not, Option, none,
  some, ◌==◌, ltb, leb, take, drop, get_or, length, replicate, if◌then◌else◌, bytes_eq, Outcome, ok,
  fault, ◌>>=◌,
}
use notbit.Proto.Types.{codes, ripe_size, raw_key_size}
use notbit.Proto.Write.{add_var_int}
use notbit.Base58
use notbit.Base58.{BigNum}

-- struct ntb_address
pub record Address : Type 0 where
  pub version : ℕ
  pub stream : ℕ
  pub ripe : Bytes

-- SHA512 and RIPEMD160 of OpenSSL: functions from byte strings to digests of 64 and of 20 bytes.
pub record Digests : Type 0 where
  pub sha512 : Bytes → Bytes
  pub ripemd160 : Bytes → Bytes
  pub length-sha512 : (bytes : Bytes) → length (sha512 bytes) ≡ 64
  pub sha512_bytes : (bytes : Bytes) → All IsByte (sha512 bytes)
  pub length-ripemd160 : (bytes : Bytes) → length (ripemd160 bytes) ≡ 20

-- ntb_proto_double_hash: the first NTB_PROTO_HASH_LENGTH bytes.
unfoldable pub double_hash : Digests → Bytes → Bytes
double_hash h bytes = take 32 (h.sha512 (h.sha512 bytes))

-- ntb_proto_address_hash
pub address_hash : Digests → Bytes → Bytes
address_hash h bytes = h.ripemd160 (h.sha512 bytes)

pub calc_checksum : Digests → ℕ → ℕ → Bytes → Bytes
calc_checksum h version stream ripe = take 4 (h.sha512 (h.sha512 (version ∷ stream ∷ ripe)))

-- The loop that steps over at most `max_trim` leading zeroes of the ripe.
trim : ℕ → Bytes → Bytes
trim zero ripe = ripe
trim (suc n) [] = []
trim (suc n) (b ∷ ripe) = if b == 0 then trim n ripe else b ∷ ripe

-- `bin_address`, the bytes that are encoded.
pub bin_address : Digests → Address → Bytes
unfolding trim
bin_address h address =
    let ripe = trim (if leb 4 address.version then ripe_size else 2) address.ripe in
    address.version
    ∷ (address.stream ∷ (ripe ++ calc_checksum h address.version address.stream ripe))

-- The text, without its final zero.
unfoldable pub encode : BigNum → Digests → Address → Bytes
unfolding bin_address
encode bn h address = codes "BM-" ++ Base58.encode bn (bin_address h address)

-- The text behind the prefix "BM-", if that is there.
skip_prefix : Bytes → Bytes
unfolding bytes_eq
skip_prefix text = if bytes_eq (take 3 text) (codes "BM-") then drop 3 text else text

-- What is made of the decoded bytes: a length below 6 or a wrong checksum is an error.
parse_bin : Digests → Bytes → Option Address
parse_bin h bin =
    let ripe_length = length bin - 6 in
    let ripe = take ripe_length (drop 2 bin) in
    let version = get_or bin 0 0 in
    let stream = get_or bin 1 0 in
    if ltb (length bin) 6
    then none
    else if bytes_eq (calc_checksum h version stream ripe) (drop ripe_length (drop 2 bin))
    then some (record {
      version = version;
      stream = stream;
      ripe = replicate (ripe_size - ripe_length) 0 ++ ripe;
    })
    else none

pub decode : BigNum → Digests → Bytes → Option Address
unfolding skip_prefix parse_bin
decode bn h text = elim (Base58.decode bn (skip_prefix text) 26) [
  | none ↦ none
  | some bin ↦ parse_bin h bin
]

pub equal : Address → Address → Bool
equal a b = a.version == b.version && (a.stream == b.stream && bytes_eq a.ripe b.ripe)

-- A library call that writes `bytes` into an array of `room` bytes.
abbrev store : ℕ → Bytes → Outcome Bytes
store room bytes = if ltb room (length bytes) then fault else ok bytes

-- `sha_hash` is declared with SHA_DIGEST_LENGTH, 20 bytes.
pub from_network_keys : Digests → ℕ → ℕ → Bytes → Bytes → Outcome Address
from_network_keys h version stream public_signing_key public_encryption_key = do
  sha_hash ← store 20 (
      h.sha512 (
        0x04
        ∷ (take raw_key_size public_signing_key
            ++ (0x04 ∷ take raw_key_size public_encryption_key))))
  ok (record { version = version; stream = stream; ripe = h.ripemd160 sha_hash })

-- The tag and the private key for it: the second and the first 32 bytes of a double hash.
pub get_tag : Digests → Address → Bytes × Bytes
get_tag h address =
    let buffer = add_var_int (add_var_int [] address.version) address.stream in
    let hash2 = h.sha512 (h.sha512 (buffer ++ take ripe_size address.ripe)) in
    (take 32 (drop 32 hash2), take 32 hash2)

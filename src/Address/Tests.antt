-- ===== src/Address/Tests.antt =====
-- The theorems on addresses, on a concrete address.
use notbit.Common.{◌≡◌, arith, some}
use notbit.Base58.Instance.{big_num}
use notbit.Address.{encode, decode}
use notbit.Address.Instance.{digests, address, address-IsValid}
use notbit.Address.RoundTrip.{decode-encode_address}

decode-encode_address_example :
    decode big_num digests (encode big_num digests address) ≡ some address
decode-encode_address_example =
    decode-encode_address digests big_num address address-IsValid (omega arith)

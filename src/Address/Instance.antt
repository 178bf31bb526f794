-- ===== src/Address/Instance.antt =====
-- Digests that depend on the length of their input only, and an address.
use notbit.Common.{IsByte, All-replicate, ◌%◌, refl, arith, ◌∷◌, length, replicate}
use notbit.Address.{Address, Digests}
use notbit.Address.RoundTrip.{IsValid}

abbrev pub digests : Digests
digests = record {
  sha512 = λ bytes. length bytes % 256 ∷ replicate 63 5;
  ripemd160 = λ bytes. replicate 20 (length bytes % 256);
  length-sha512 = λ bytes. refl;
  sha512_bytes = λ bytes. (omega arith, All-replicate IsByte 63 5 (omega arith));
  length-ripemd160 = λ bytes. refl;
}

-- Two of the leading zeroes are left out of the text.
abbrev pub address : Address
address = record { version = 4; stream = 1; ripe = 0 ∷ (0 ∷ replicate 18 7) }

pub address-IsValid : IsValid address
address-IsValid = record {
  version = omega arith;
  stream = omega arith;
  size = refl;
  ripe = (omega arith, (omega arith, All-replicate IsByte 18 7 (omega arith)));
}

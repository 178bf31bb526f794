-- ===== src/Address/Keys.antt =====
-- The derivation of an address and of its tag from hashes.
use notbit.Common.{ℕ, ◌≡◌, arith, Bytes, true, fault, bytes_eq→eq, bytes_eq_refl, ◌↔◌}
use notbit.Address.{Address, Digests, equal, from_network_keys}

-- ntb_address_equal is equality, on version, stream and ripe.
pub equal_iff : (a b : Address) → (equal a b ≡ true) ↔ (a ≡ b)
unfolding equal
equal_iff a b =
    (λ h. ground (arith, bytes_eq→eq a.ripe b.ripe), λ e. rw e ground (arith, bytes_eq_refl b.ripe))

-- Whatever the keys, ntb_address_from_network_keys writes a digest of 64 bytes into an array of 20.
pub from_network_keys-fault :
    (h : Digests) (version stream : ℕ) (signing encryption : Bytes)
    → from_network_keys h version stream signing encryption ≡ fault
unfolding from_network_keys
from_network_keys-fault h version stream signing encryption = grind (arith, h.length-sha512)

-- ===== src/Network/Items/Judged.antt =====
-- src/ntb-network.c: the header and the test of an object; neither reads outside the object.
use notbit.Address.{Digests}
use notbit.Common.{
  ℕ, ◌+◌, ◌-◌, ◌≤◌, ◌≡◌, ◌≢◌, refl, arith, Bytes, [], ◌∷◌, ◌++◌, length, take, drop, length-drop,
  Bool, true, not, Bool-cases, inl, inr, leb, Outcome, ok, fault, >>=-ne-fault, zero, suc, ◌*◌,
  le→ltb, >>=-eq-ok,
}
use notbit.Network.Judging.{should_reject, inv_future_age}
use notbit.Pow.{check, calculate_target}
use notbit.Proto.Memory.{get_32-ne-fault, get_64-ne-fault}
use notbit.Proto.Read.{
  Cursor, advance, get_field, get_32, get_64, read_be, get_timestamp, get_argument, get_command,
}
use notbit.Proto.Types.{
  InvType, Values, uint64, timestamp, get_max_age_for_type, min_extra_bytes,
  min_nonce_trials_per_byte,
}

whole_field :
    (n : ℕ) (get : Bytes → Outcome ℕ) (c : Cursor)
    → ((mem : Bytes) → n ≤ length mem → get mem ≢ fault)
    → c.len ≤ length c.mem
    → get_field n get c ≢ fault
whole_field n get c safe whole = ground (arith, safe c.mem)

advanced : (n : ℕ) (c : Cursor) → c.len ≤ length c.mem → c.len - n ≤ length (drop n c.mem)
advanced n c whole = rw (length-drop n c.mem) (omega arith)

after_field :
    (n : ℕ) (get : Bytes → Outcome ℕ) (c c' : Cursor) (v : ℕ)
    → get_field n get c ≡ ok (v, c')
    → (c' ≡ advance n c) × (n ≤ c.len)
after_field n get c c' v e = ground arith

whole_timestamp : (c : Cursor) → c.len ≤ length c.mem → get_timestamp c ≢ fault
unfolding get_timestamp
whole_timestamp c whole =
    >>=-ne-fault (get_field 4 get_32 c) _ (whole_field 4 get_32 c get_32-ne-fault whole)
      λ (v, c') e.
        let w : c'.len ≤ length c'.mem =
          rw (after_field 4 get_32 c c' v e).0 (advanced 4 c whole) in
        ground (arith, whole_field 4 get_32 c' get_32-ne-fault w)

abbrev pub whole : Bytes → Cursor
whole bytes = record { mem = bytes; len = length bytes }

pub header-ne-fault : (bytes : Bytes) → get_command (uint64 ∷ timestamp ∷ []) (whole bytes) ≢ fault
unfolding get_command get_argument
header-ne-fault bytes =
    >>=-ne-fault (get_field 8 get_64 (whole bytes)) _
      (whole_field 8 get_64 (whole bytes) get_64-ne-fault (omega arith))
      λ (v, c') e.
        let w : c'.len ≤ length c'.mem =
          rw (after_field 8 get_64 (whole bytes) c' v e).0
            (advanced 8 (whole bytes) (omega arith)) in
        ground (arith, whole_timestamp c' w)

pub header_long :
    (bytes : Bytes) (r : Values (uint64 ∷ timestamp ∷ []) × Cursor)
    → get_command (uint64 ∷ timestamp ∷ []) (whole bytes) ≡ ok r
    → 8 ≤ length bytes
unfolding get_command get_argument
header_long bytes r e =
    let ((v, c'), f, _) = >>=-eq-ok (get_field 8 get_64 (whole bytes)) _ e in
    (after_field 8 get_64 (whole bytes) c' v f).1

read_be_some : (n acc : ℕ) (mem : Bytes) → n ≤ length mem → (v : ℕ) × (read_be n acc mem ≡ ok v)
unfolding read_be
read_be_some zero acc mem h = (acc, refl)
read_be_some (suc n) acc [] h = absurd (omega arith)
read_be_some (suc n) acc (b ∷ mem) h = read_be_some n (acc * 256 + b) mem (omega arith)

check_some :
    (h : Digests) (bytes : Bytes) (extra trials : ℕ)
    → 8 ≤ length bytes
    → (good : Bool) × (check h.sha512 bytes extra trials ≡ ok good)
unfolding check get_64
check_some h bytes extra trials long =
    let digest = h.sha512 (h.sha512 (take 8 bytes ++ h.sha512 (drop 8 bytes))) in
    let (value, e) = read_be_some 8 0 digest (rw (h.length-sha512 _) (omega arith)) in
    (
      leb value (calculate_target (length bytes) extra trials),
      rw (le→ltb (length bytes) 8 long, e) refl,
    )

pub should_reject_some :
    (h : Digests) (now created : ℕ) (type : InvType) (bytes : Bytes)
    → 8 ≤ length bytes
    → (bad : Bool) × (should_reject h.sha512 now created type bytes ≡ ok bad)
unfolding should_reject
should_reject_some h now created type bytes long =
    elim (Bool-cases (leb (now + inv_future_age) created)) [
      | inl e ↦ (true, rw e refl)
      | inr e ↦ elim (Bool-cases (leb (created + get_max_age_for_type type) now)) [
        | inl f ↦ (true, rw (e, f) refl)
        | inr f ↦
            let (good, g) = check_some h bytes min_extra_bytes min_nonce_trials_per_byte long in
            (not good, rw (e, f, g) refl)
      ]
    ]

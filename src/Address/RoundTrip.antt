-- ===== src/Address/RoundTrip.antt =====
-- ntb_address_decode reads back what ntb_address_encode writes, and what it accepts.
use notbit.Common.{
  ℕ, zero, suc, ◌+◌, ◌-◌, ◌≤◌, ◌<◌, ◌≡◌, refl, sym, ◌∙◌, ap, arith, Bytes, [], ◌∷◌, ◌++◌, IsByte,
  All, All-append, length, length-append, length-take, length-drop, length-replicate, some,
  Option-cases, Bool-cases, ==_iff, inl, inr, leb, ◌==◌, le→ltb, take, drop, take-append,
  drop-append, replicate, bytes_eq_refl, get_or, bytes_eq→eq, if◌then◌else◌,
}
use mathlib.Core.Path.{ap₂}
use notbit.Proto.Types.{codes, ripe_size}
use notbit.Base58
use notbit.Base58.{BigNum}
use notbit.Base58.RoundTrip.{decode-encode, decode_fits}
use notbit.Base58.Size.{length-encode}
use notbit.Address.{
  Address, Digests, trim, calc_checksum, bin_address, encode, skip_prefix, parse_bin, decode,
}

-- What an address is: two bytes and a ripe of 20 bytes.
pub record IsValid (a : Address) : Type 0 where
  pub version : IsByte a.version
  pub stream : IsByte a.stream
  pub size : length a.ripe ≡ ripe_size
  pub ripe : All IsByte a.ripe

length-trim : (n : ℕ) (ripe : Bytes) → length (trim n ripe) ≤ length ripe
unfolding trim
length-trim zero ripe = omega arith
length-trim (suc n) [] = omega arith
length-trim (suc n) (b ∷ ripe) = ground (arith, length-trim n ripe)

trim-IsByte : (n : ℕ) (ripe : Bytes) → All IsByte ripe → All IsByte (trim n ripe)
unfolding trim
trim-IsByte zero ripe h = h
trim-IsByte (suc n) [] h = tt
trim-IsByte (suc n) (b ∷ ripe) h = elim (Bool-cases (b == 0)) [
  | inl e ↦ rw e (trim-IsByte n ripe h.1)
  | inr e ↦ rw e h
]

-- The zeroes that were stepped over are put back.
pad-trim :
    (n : ℕ) (ripe : Bytes) → replicate (length ripe - length (trim n ripe)) 0 ++ trim n ripe ≡ ripe
unfolding trim
pad-trim zero ripe = rw (let e : length ripe - length ripe ≡ 0 = omega arith in e)
pad-trim (suc n) [] = refl
pad-trim (suc n) (b ∷ ripe) = elim (Bool-cases (b == 0)) [
  | inl e ↦ rw e (
      rw (more (length ripe) _ (length-trim n ripe))
        (ap₂ (λ x y. x ∷ y) (sym ((==_iff b 0).0 e)) (pad-trim n ripe)))
  | inr e ↦ rw e (rw (let z : suc (length ripe) - suc (length ripe) ≡ 0 = omega arith in z))
]
  where
    more : (a b : ℕ) → b ≤ a → suc a - b ≡ suc (a - b)
    more a b h = omega arith

All-take : (n : ℕ) (xs : Bytes) → All IsByte xs → All IsByte (take n xs)
All-take zero xs h = tt
All-take (suc n) [] h = tt
All-take (suc n) (x ∷ xs) h = (h.0, All-take n xs h.1)

skip_prefix-append : (text : Bytes) → skip_prefix (codes "BM-" ++ text) ≡ text
unfolding skip_prefix
skip_prefix-append text = refl

module _ (h : Digests) where
  length-calc_checksum : (v s : ℕ) (ripe : Bytes) → length (calc_checksum h v s ripe) ≡ 4
  unfolding calc_checksum
  length-calc_checksum v s ripe =
      length-take 4 _ (omega (arith, h.length-sha512 (h.sha512 (v ∷ (s ∷ ripe)))))

  parse_bin_lem :
      (v s : ℕ) (ripe : Bytes)
      → parse_bin h (v ∷ (s ∷ (ripe ++ calc_checksum h v s ripe)))
        ≡ some (record {
          version = v;
          stream = s;
          ripe = replicate (ripe_size - length ripe) 0 ++ ripe;
        })
  unfolding parse_bin
  parse_bin_lem v s ripe =
      let sum = calc_checksum h v s ripe in
      let size : length (v ∷ (s ∷ (ripe ++ sum))) ≡ length ripe + 6 =
        rw length-append (omega (arith, length-calc_checksum v s ripe)) in
      let less : length (v ∷ (s ∷ (ripe ++ sum))) - 6 ≡ length ripe = omega (arith, size) in
      rw (
        le→ltb (length (v ∷ (s ∷ (ripe ++ sum)))) 6 (omega (arith, size)),
        less,
        take-append,
        drop-append,
        bytes_eq_refl,
      )

  bin_address-IsByte : (a : Address) → IsValid a → All IsByte (bin_address h a)
  unfolding bin_address calc_checksum
  bin_address-IsByte a valid = (
    valid.version,
    (
      valid.stream,
      All-append IsByte _ _ (trim-IsByte _ a.ripe valid.ripe) (All-take 4 _ (h.sha512_bytes _)),
    ),
  )

  length-bin_address : (a : Address) → IsValid a → length (bin_address h a) ≤ 26
  unfolding bin_address
  length-bin_address a valid =
      let n = if leb 4 a.version then ripe_size else 2 in
      rw length-append (
        omega (
          arith,
          length-trim n a.ripe,
          length-calc_checksum a.version a.stream (trim n a.ripe),
          valid.size,
        ))

  decode_lem :
      (bn : BigNum) (text bin : Bytes)
      → Base58.decode bn (skip_prefix text) 26 ≡ some bin
      → decode bn h text ≡ parse_bin h bin
  unfolding decode
  decode_lem bn text bin e = rw (e, decode)

  module _ (bn : BigNum) where
    -- The text of an address fits NTB_ADDRESS_MAX_LENGTH, 39 characters.
    pub length-encode_address : (a : Address) → IsValid a → length (encode bn h a) ≤ 39
    unfolding encode
    length-encode_address a valid = omega (
      arith,
      length-encode bn (bin_address h a) (bin_address-IsByte a valid) (length-bin_address a valid),
    )

    -- The text of an address is decoded as that address, whatever its leading zeroes. The version
    -- is not 0, since leading zero bytes are lost in base 58.
    pub decode-encode_address :
        (a : Address) → IsValid a → 0 < a.version → decode bn h (encode bn h a) ≡ some a
    unfolding decode encode bin_address
    decode-encode_address a valid pos =
        let n = if leb 4 a.version then ripe_size else 2 in
        let ripe = trim n a.ripe in
        let rest = a.stream ∷ (ripe ++ calc_checksum h a.version a.stream ripe) in
        let back =
          decode-encode bn a.version rest 26 pos (bin_address-IsByte a valid)
            (length-bin_address a valid) in
        let padded : replicate (ripe_size - length ripe) 0 ++ ripe ≡ a.ripe =
          ap (λ t. replicate (t - length ripe) 0 ++ ripe) (sym valid.size) ∙ pad-trim n a.ripe in
        decode_lem bn (encode bn h a) (a.version ∷ rest) (
          ap (λ t. Base58.decode bn t 26) (skip_prefix-append (Base58.encode bn (a.version ∷ rest)))
          ∙ back)
        ∙ parse_bin_lem a.version a.stream ripe
        ∙ ap (λ t. some (record { version = a.version; stream = a.stream; ripe = t })) padded

  -- What is decoded has a ripe of 20 bytes, and its checksum was the one in the decoded bytes.
  parse_bin_sound :
      (bin : Bytes) (a : Address)
      → length bin ≤ 26
      → parse_bin h bin ≡ some a
      → (length a.ripe ≡ ripe_size)
        × (6 ≤ length bin)
        × (calc_checksum h a.version a.stream (take (length bin - 6) (drop 2 bin))
            ≡ drop (length bin - 6) (drop 2 bin))
  unfolding parse_bin
  parse_bin_sound bin a short e =
      let n = length bin - 6 in
      let ripe = take n (drop 2 bin) in
      let enough : n ≤ length (drop 2 bin) = rw length-drop (omega arith) in
      ground (
        arith,
        length-take n (drop 2 bin) enough,
        length-append (replicate (ripe_size - n) 0) ripe,
        length-replicate {A = ℕ} (ripe_size - n) 0,
        bytes_eq→eq (calc_checksum h (get_or bin 0 0) (get_or bin 1 0) ripe) (drop n (drop 2 bin)),
      )

  -- A text that is decoded stands for bytes, at least 6 and at most 26, whose last 4 are the
  -- checksum of the others, and the ripe is filled up to 20 bytes.
  pub decode_sound_address :
      (bn : BigNum) (text : Bytes) (a : Address)
      → decode bn h text ≡ some a
      → (bin : Bytes) × (length bin ≤ 26)
        × (length a.ripe ≡ ripe_size)
        × (6 ≤ length bin)
        × (calc_checksum h a.version a.stream (take (length bin - 6) (drop 2 bin))
            ≡ drop (length bin - 6) (drop 2 bin))
  unfolding decode
  decode_sound_address bn text a e = elim (Option-cases (Base58.decode bn (skip_prefix text) 26)) [
    | inl p ↦ cc (p, e)
    | inr (bin, p) ↦
        let short = decode_fits bn (skip_prefix text) 26 bin (omega arith) p in
        let (x, y, z) = parse_bin_sound bin a short (ground (arith, p)) in (bin, short, x, y, z)
  ]

-- ===== src/Proto/Pubkeys.antt =====
-- ntb_proto_get_pubkey: the memory it reads, and the shape of what it accepts.
use notbit.Common.{
  ◌∙◌, >>=-eq-ok, ◌+◌, ◌-◌, ◌*◌, ◌≤◌, ◌≡◌, refl, ap, arith, List, [], ◌∷◌, length, ltb, ◌==◌, drop,
  take, ok, inl, inr, Bool, true, false, not, ltb→le, length-drop, length-take, if-Ensures, Ensures,
  >>=-Ensures, guard-Ensures, ok-Ensures, ◌⊎◌, ==_iff,
}
use notbit.Proto.Types.{
  Argument, Values, Pubkey, raw_key_size, min_nonce_trials_per_byte, min_extra_bytes,
}
use notbit.Proto.Read.{Cursor, advance, get_32, get_var_int, get_argument, get_command}
use notbit.Proto.Objects.{
  process_v2_pubkey_parts, process_v3_pubkey_parts, process_v4_pubkey_parts, get_pubkey, set_header,
}
use notbit.Proto.Bounds.{Moves, Moves-trans, get_var_int-Moves, get_command-Moves, advance-Moves}
use notbit.Proto.Messages.{two_ints, Moves-held, Moves-gap, not-==_eq}

abbrev object_fields : List Argument
object_fields = Argument.uint64 ∷ Argument.timestamp ∷ Argument.var_int ∷ Argument.var_int ∷ []

-- A key of version 2 has the default proof-of-work settings and no signature.
abbrev pub IsV2 : Pubkey → Type 0
IsV2 p =
    (p.nonce_trials_per_byte ≡ min_nonce_trials_per_byte)
    × (p.extra_bytes ≡ min_extra_bytes)
    × (p.signature ≡ [])

-- Behind a word, the signing key and then the encryption key stand in the message; `d` is the cursor
-- behind the header.
abbrev pub HasKeys : Cursor → Pubkey → Type 0
HasKeys d p =
    (4 + raw_key_size * 2 ≤ d.len)
    × (length p.public_signing_key ≡ raw_key_size)
    × (length p.public_encryption_key ≡ raw_key_size)
    × (p.public_signing_key ≡ take raw_key_size (drop 4 d.mem))
    × (p.public_encryption_key ≡ take raw_key_size (drop (4 + raw_key_size) d.mem))

-- The signed part starts behind the nonce, and with the signature it lies in the message, at whose
-- end the signature stands.
abbrev pub IsSigned : Cursor → Pubkey → Type 0
IsSigned start p =
    (length p.signature ≡ p.signature_length)
    × (8 + p.signed_data_length + p.signature_length ≤ start.len)
    × (p.signed_data ≡ take p.signed_data_length (drop 8 start.mem))
    × (p.signature ≡ take p.signature_length (drop (start.len - p.signature_length) start.mem))

-- The rest of the message is the tag and the encrypted part.
abbrev pub IsEncrypted : Cursor → Pubkey → Type 0
IsEncrypted d p =
    (length p.tag ≡ 32)
    × (length p.encrypted_data ≡ p.encrypted_data_length)
    × (32 + p.encrypted_data_length ≡ d.len)
    × (p.tag ≡ take 32 d.mem)
    × (p.encrypted_data ≡ take p.encrypted_data_length (drop 32 d.mem))

-- The parts of a version; version 4 by whether it was decrypted.
abbrev pub HasParts : Bool → Cursor → Cursor → Pubkey → Type 0
HasParts decrypted start d p =
    ((p.version ≡ 2) × HasKeys d p × IsV2 p)
    ⊎ ((((p.version ≡ 4) × (decrypted ≡ true)) ⊎ (p.version ≡ 3)) × HasKeys d p × IsSigned start p)
    ⊎ ((p.version ≡ 4) × (decrypted ≡ false) × IsEncrypted d p)

-- What ntb_proto_get_pubkey accepts: a header is read, and the parts stand in the rest of the message.
abbrev pub IsAccepted : Bool → Cursor → Pubkey → Type 0
IsAccepted decrypted start p =
    (vs : Values object_fields) × (d : Cursor) × (get_command object_fields start ≡ ok (vs, d))
    × (8 + d.len ≤ start.len)
    × (d.mem ≡ drop (start.len - d.len) start.mem)
    × HasParts decrypted start d p

module _ (c : Cursor) (held : c.len ≤ length c.mem) (room : 4 + raw_key_size * 2 ≤ c.len) where
  keys_held :
      (4 + raw_key_size * 2 ≤ c.len)
      × (length (take raw_key_size (drop 4 c.mem)) ≡ raw_key_size)
      × (length (take raw_key_size (drop (4 + raw_key_size) c.mem)) ≡ raw_key_size)
      × (take raw_key_size (drop 4 c.mem) ≡ take raw_key_size (drop 4 c.mem))
      × (take raw_key_size (drop (4 + raw_key_size) c.mem)
          ≡ take raw_key_size (drop (4 + raw_key_size) c.mem))
  keys_held = (
    room,
    length-take raw_key_size (drop 4 c.mem) (rw length-drop (omega arith)),
    length-take raw_key_size (drop (4 + raw_key_size) c.mem) (rw length-drop (omega arith)),
    refl,
    refl,
  )

process_v2_pubkey_parts_lem :
    (c : Cursor) (p : Pubkey)
    → c.len ≤ length c.mem
    → p.signature ≡ []
    → Ensures (λ q. (q.version ≡ p.version) × HasKeys c q × IsV2 q) (process_v2_pubkey_parts c p)
unfolding process_v2_pubkey_parts
process_v2_pubkey_parts_lem c p held blank =
    guard-Ensures _ (ltb c.len (raw_key_size * 2 + 4)) _ λ g. >>=-Ensures _ (get_32 c.mem) _ λ w e.
      ok-Ensures _ _ (refl, keys_held c held (omega (arith, ltb→le _ _ g)), (refl, refl, blank))

process_v4_pubkey_parts_lem :
    (c : Cursor) (p : Pubkey)
    → c.len ≤ length c.mem
    → Ensures (λ q. (q.version ≡ p.version) × IsEncrypted c q) (process_v4_pubkey_parts c p)
unfolding process_v4_pubkey_parts
process_v4_pubkey_parts_lem c p held = guard-Ensures _ (ltb c.len 32) _ λ g.
    let l = ltb→le c.len 32 g in
    ok-Ensures _ _ (
      refl,
      (
        length-take 32 c.mem (omega arith),
        length-take (c.len - 32) (drop 32 c.mem) (rw length-drop (omega arith)),
        omega arith,
        refl,
        refl,
      ),
    )

process_v3_pubkey_parts_lem :
    (start c : Cursor) (p : Pubkey)
    → Moves start c
    → start.len ≤ length start.mem
    → Ensures
        (λ q. (q.version ≡ p.version) × HasKeys c q × IsSigned start q)
        (process_v3_pubkey_parts (drop 8 start.mem) c p)
unfolding process_v3_pubkey_parts
process_v3_pubkey_parts_lem start c p m held =
    guard-Ensures _ (ltb c.len (4 + raw_key_size * 2)) _ λ g. >>=-Ensures _ (get_32 c.mem) _ λ w e.
      >>=-Ensures _ (get_command two_ints (advance (4 + raw_key_size * 2) c)) _ λ (vs, c₂) e₂.
        >>=-Ensures _ (get_var_int c₂) _ λ (s, c₃) e₃. guard-Ensures _ (not (c₃.len == s)) _ λ g₃.
          let l = ltb→le c.len (4 + raw_key_size * 2) g in
          let l₃ : c₃.len ≡ s = not-==_eq c₃.len s g₃ in
          let m₁ = advance-Moves (4 + raw_key_size * 2) c l in
          let m₂ = get_command-Moves two_ints _ c₂ vs e₂ in
          let m₃ = get_var_int-Moves c₂ c₃ s e₃ in
          let to₂ : Moves start c₂ = Moves-trans (Moves-trans m m₁) m₂ in
          let to₃ : Moves start c₃ = Moves-trans to₂ m₃ in
          let gap = Moves-gap to₂ held in
          ok-Ensures _ _ (
            refl,
            keys_held c (Moves-held m held) (omega arith),
            (
              length-take s c₃.mem (omega (arith, Moves-held to₃ held)),
              rw length-drop (omega arith),
              refl,
              ap (take s) (to₃.points ∙ ap (λ t. drop (start.len - t) start.mem) l₃),
            ),
          )

-- The nonce alone takes 8 bytes.
object_fields_room :
    (c d : Cursor) (vs : Values object_fields)
    → get_command object_fields c ≡ ok (vs, d)
    → 8 + d.len ≤ c.len
unfolding get_command get_argument
object_fields_room c d vs h =
    let ((v, c'), e, h') = >>=-eq-ok (get_argument Argument.uint64 c) _ h in
    let ((ws, end), e', h'') =
      >>=-eq-ok (get_command (Argument.timestamp ∷ Argument.var_int ∷ Argument.var_int ∷ []) c') _
        h' in
    let same : end ≡ d = cc in
    let m =
      get_command-Moves (Argument.timestamp ∷ Argument.var_int ∷ Argument.var_int ∷ []) c' end ws
        e' in
    let nonce : 8 + c'.len ≤ c.len = ground arith in
    omega (arith, ap (λ (t : Cursor). t.len) same, nonce, m.shorter)

-- What ntb_proto_get_pubkey accepts has version 2, 3 or 4, and its parts lie behind the header, inside the
-- message: for version 2, and for version 3 and a decrypted object of version 4, the signing key and then the
-- encryption key; for version 3 and a decrypted object also the signed part behind the nonce and the signature
-- at the end of the message; for an encrypted object of version 4 the tag and then the encrypted rest. The
-- message lies in its memory.
pub get_pubkey-IsAccepted :
    (decrypted : Bool) (c : Cursor)
    → c.len ≤ length c.mem
    → (p : Pubkey) → get_pubkey decrypted c ≡ ok p
    → IsAccepted decrypted c p
unfolding get_pubkey
get_pubkey-IsAccepted decrypted c held =
    >>=-Ensures (IsAccepted decrypted c) (get_command object_fields c) _ λ (vs, d) e.
      let m = get_command-Moves object_fields c d vs e in
      let held' = Moves-held m held in
      let p = set_header vs.0 vs.1.0 vs.1.1.0 vs.1.1.1.0 in
      let v3 = process_v3_pubkey_parts_lem c d p m held in
      let v4 = process_v4_pubkey_parts_lem d p held' in
      let Parts : Pubkey → Type 0 = λ q. IsAccepted decrypted c q in
      let found : (q : Pubkey) → HasParts decrypted c d q → Parts q =
        λ q h. (vs, d, e, object_fields_room c d vs e, m.points, h) in
      if-Ensures Parts (vs.1.1.0 == 2) _ _
        (λ is q h.
          let (t, keys, rest) = process_v2_pubkey_parts_lem d p held' refl q h in
          found q (inl (t ∙ (==_iff _ _).0 is, keys, rest)))
        λ _.
          if-Ensures Parts (vs.1.1.0 == 4) _ _
            (λ is.
              if-Ensures Parts decrypted _ _
                (λ was q h.
                  let (t, keys, rest) = v3 q h in
                  found q (inr (inl (inl (t ∙ (==_iff _ _).0 is, was), keys, rest))))
                (λ was q h.
                  let (t, rest) = v4 q h in found q (inr (inr (t ∙ (==_iff _ _).0 is, was, rest)))))
            λ _.
              if-Ensures Parts (vs.1.1.0 == 3) _ _
                (λ is q h.
                  let (t, keys, rest) = v3 q h in
                  found q (inr (inl (inr (t ∙ (==_iff _ _).0 is), keys, rest))))
                (λ _ q h. cc)

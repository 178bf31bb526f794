-- ===== src/Proto/Messages.antt =====
-- ntb_proto_get_decrypted_msg: the memory it reads, and the shape of what it accepts.
use notbit.Common.{
  ℕ, ◌+◌, ◌-◌, ◌*◌, ◌≤◌, ◌≡◌, ◌∙◌, ap, arith, List, [], ◌∷◌, length, ltb, leb, ◌==◌, drop, take, ok,
  Bool-cases, >>=-eq-ok, inl, inr, false, not, ltb→le, length-drop, length-take, >>=-Ensures,
  guard-Ensures, ok-Ensures,
}
use notbit.Proto.Types.{Argument, DecryptedMsg, raw_key_size, ripe_size}
use notbit.Proto.Read.{Cursor, advance, get_var_int, get_command}
use notbit.Proto.Objects.{get_pow_fields, get_decrypted_msg}
use notbit.Proto.Bounds.{
  Moves, Moves-refl, Moves-trans, get_var_int-Moves, get_command-Moves, advance-Moves,
}

abbrev pub two_ints : List Argument
two_ints = Argument.var_int ∷ Argument.var_int ∷ []

abbrev leading_fields : List Argument
leading_fields = Argument.var_int ∷ Argument.var_int ∷ Argument.var_int ∷ Argument.uint32 ∷ []

get_pow_fields-Moves :
    (version : ℕ) (c d : Cursor) (t x : ℕ) → get_pow_fields version c ≡ ok (t, x, d) → Moves c d
unfolding get_pow_fields
get_pow_fields-Moves version c d t x h = elim (Bool-cases (leb 3 version)) [
  | inl e ↦
      let ((vs, c'), got, h') =
        >>=-eq-ok (get_command two_ints c) (λ r. ok (r.0.0, r.0.1.0, r.1)) {b = (t, x, d)}
          (rw e at h) in
      let same : c' ≡ d = cc in rw (← same) (get_command-Moves two_ints c c' vs got)
  | inr e ↦ ground (arith, Moves-refl c)
]

-- What an accepted message is: every slice has its stated length, and the parts lie one behind the
-- other in the object.
pub record IsWhole (start : Cursor) (m : DecryptedMsg) : Type 0 where
  pub signing_key : length m.sender_signing_key ≡ raw_key_size
  pub encryption_key : length m.sender_encryption_key ≡ raw_key_size
  pub ripe : length m.destination_ripe ≡ ripe_size
  pub message : length m.message ≡ m.message_length
  pub ack : length m.ack ≡ m.ack_length
  pub sig : length m.sig ≡ m.sig_length
  pub signed : m.signed_data_length + m.sig_length ≤ start.len
  pub behind : raw_key_size * 2 + ripe_size + m.message_length + m.ack_length ≤ m.signed_data_length
  pub ends : m.sig ≡ take m.sig_length (drop (start.len - m.sig_length) start.mem)

pub not-==_eq : (a b : ℕ) → not (a == b) ≡ false → a ≡ b
not-==_eq a b h = ground arith

module _ {c d : Cursor} (m : Moves c d) (held : c.len ≤ length c.mem) where
  pub Moves-held : d.len ≤ length d.mem
  Moves-held = rw m.points (rw length-drop (omega arith))

  pub Moves-gap : length c.mem - length d.mem ≡ c.len - d.len
  Moves-gap = rw m.points (rw length-drop (omega (arith, m.shorter)))

-- A decrypted message that is accepted lies whole in the buffer of `length` bytes.
pub get_decrypted_msg-IsWhole :
    (c : Cursor)
    → c.len ≤ length c.mem
    → (m : DecryptedMsg) → get_decrypted_msg c ≡ ok m
    → IsWhole c m
unfolding get_decrypted_msg
get_decrypted_msg-IsWhole c held =
    >>=-Ensures (IsWhole c) (get_command leading_fields c) _ λ (vs, c₁) e₁.
      guard-Ensures (IsWhole c) (ltb c₁.len (raw_key_size * 2)) _ λ g₁.
        >>=-Ensures (IsWhole c) (get_pow_fields vs.1.0 (advance (raw_key_size * 2) c₁)) _
          λ (t, x, c₃) e₃. guard-Ensures (IsWhole c) (ltb c₃.len ripe_size) _ λ g₃.
            >>=-Ensures (IsWhole c) (get_command two_ints (advance ripe_size c₃)) _ λ (ws, c₅) e₅.
              guard-Ensures (IsWhole c) (ltb c₅.len ws.1.0) _ λ g₅.
                >>=-Ensures (IsWhole c) (get_var_int (advance ws.1.0 c₅)) _ λ (n, c₇) e₇.
                  guard-Ensures (IsWhole c) (ltb c₇.len n) _ λ g₇.
                    >>=-Ensures (IsWhole c) (get_var_int (advance n c₇)) _ λ (s, c₉) e₉.
                      guard-Ensures (IsWhole c) (not (c₉.len == s)) _ λ g₉.
                        let m₁ = get_command-Moves leading_fields c c₁ vs e₁ in
                        let m₂ = advance-Moves (raw_key_size * 2) c₁ (ltb→le _ _ g₁) in
                        let m₃ =
                          get_pow_fields-Moves vs.1.0 (advance (raw_key_size * 2) c₁) c₃ t x e₃ in
                        let m₄ = advance-Moves ripe_size c₃ (ltb→le _ _ g₃) in
                        let m₅ = get_command-Moves two_ints (advance ripe_size c₃) c₅ ws e₅ in
                        let m₆ = advance-Moves ws.1.0 c₅ (ltb→le _ _ g₅) in
                        let m₇ = get_var_int-Moves (advance ws.1.0 c₅) c₇ n e₇ in
                        let m₈ = advance-Moves n c₇ (ltb→le _ _ g₇) in
                        let m₉ = get_var_int-Moves (advance n c₇) c₉ s e₉ in
                        let to₃ : Moves c c₃ = Moves-trans (Moves-trans m₁ m₂) m₃ in
                        let to₅ : Moves c c₅ = Moves-trans (Moves-trans to₃ m₄) m₅ in
                        let to₇ : Moves c c₇ = Moves-trans (Moves-trans to₅ m₆) m₇ in
                        let to₈ : Moves c (advance n c₇) = Moves-trans to₇ m₈ in
                        let to₉ : Moves c c₉ = Moves-trans to₈ m₉ in
                        let l₁ = ltb→le c₁.len (raw_key_size * 2) g₁ in
                        let l₃ = ltb→le c₃.len ripe_size g₃ in
                        let l₅ = ltb→le c₅.len ws.1.0 g₅ in
                        let l₇ = ltb→le c₇.len n g₇ in
                        let l₉ : c₉.len ≡ s = not-==_eq c₉.len s g₉ in
                        let gap = Moves-gap to₈ held in
                        ok-Ensures (IsWhole c) _ record {
                          signing_key =
                              length-take _ c₁.mem (omega (arith, l₁, Moves-held m₁ held));
                          encryption_key =
                              length-take _ (drop raw_key_size c₁.mem)
                                (rw length-drop (omega (arith, l₁, Moves-held m₁ held)));
                          ripe = length-take _ c₃.mem (omega (arith, l₃, Moves-held to₃ held));
                          message = length-take _ c₅.mem (omega (arith, l₅, Moves-held to₅ held));
                          ack = length-take _ c₇.mem (omega (arith, l₇, Moves-held to₇ held));
                          sig = length-take _ c₉.mem (omega (arith, l₉, Moves-held to₉ held));
                          signed = omega arith;
                          behind = omega arith;
                          ends = ap (take s) (to₉.points ∙ ap (λ t. drop (c.len - t) c.mem) l₉);
                        }

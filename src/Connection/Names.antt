-- ===== src/Connection/Names.antt =====
-- The names of commands in the header of src/ntb-connection.c, and the parts of a frame.
use notbit.Common.{
  ℕ, suc, ◌+◌, ◌-◌, ◌≤◌, ◌<◌, ◌≡◌, ◌≢◌, refl, sym, ◌∙◌, ap, arith, Bytes, [], ◌∷◌, ◌++◌, All, true,
  ==_ne, take, drop, length, length-append, length-take, length-replicate, append_assoc, take_front,
  drop_front, replicate,
}
use notbit.Proto.Types.{header_size, magic, check_command_string}
use notbit.Proto.Write.{be_bytes}
use notbit.Proto.Frame.{length-be_bytes, check_command_string_iff}
use notbit.Connection.Commands.{c_string}

c_string_lem : (name rest : Bytes) → All (λ b. b ≢ 0) name → c_string (name ++ 0 ∷ rest) ≡ name
unfolding c_string
c_string_lem [] rest clean = refl
c_string_lem (b ∷ name) rest clean = rw (==_ne b 0 clean.0, c_string_lem name rest clean.1) refl

-- The names of commands: shorter than 12 bytes, none of which is zero.
abbrev pub IsName : Bytes → Type 0
IsName name = All (λ b. b ≢ 0) name × (length name < 12)

abbrev pub pad : Bytes → Bytes
pad name = name ++ replicate (12 - length name) 0

module _ (name : Bytes) (good : IsName name) where
  pub length-pad : length (pad name) ≡ 12
  length-pad = rw (length-append, length-replicate) (omega arith)

  split_pad : pad name ≡ name ++ 0 ∷ replicate (11 - length name) 0
  split_pad =
      let one_more : 12 - length name ≡ suc (11 - length name) = omega (arith, good.1) in
      ap (λ k. name ++ replicate k 0) one_more

  pub c_string-pad : (rest : Bytes) → c_string (pad name ++ rest) ≡ name
  c_string-pad rest =
      ap c_string (ap (λ t. t ++ rest) split_pad ∙ append_assoc name _ rest)
      ∙ c_string_lem name _ good.0

  pub check-pad : (rest : Bytes) → check_command_string (pad name ++ rest) ≡ true
  check-pad rest =
      (check_command_string_iff (pad name ++ rest)).1
        (name, 11 - length name, good.0, take_front 12 (pad name) rest length-pad ∙ split_pad)

module _ (sha512 : Bytes → Bytes) where
  -- The bytes of a command with its name and its payload.
  abbrev pub framed : Bytes → Bytes → Bytes
  framed name payload =
      magic ++ (pad name ++ (be_bytes 4 (length payload) ++ (take 4 (sha512 payload) ++ payload)))

  pub length-framed :
      (name payload : Bytes)
      → IsName name
      → 4 ≤ length (sha512 payload)
      → length (framed name payload) ≡ header_size + length payload
  length-framed name payload good hashed =
      let sum = length-take 4 (sha512 payload) hashed in
      simp (length-append) (
        omega (
          arith,
          sum,
          length-replicate {A = ℕ} (12 - length name) 0,
          length-be_bytes 4 (length payload),
          good.1,
        ))

-- A name, two fields of 4 bytes, and what is behind them.
module _ (p size sum rest : Bytes) (e : length p ≡ 12) (f : length size ≡ 4)
    (g : length sum ≡ 4) where
  pub at_size : drop 12 (p ++ (size ++ (sum ++ rest))) ≡ size ++ (sum ++ rest)
  at_size = drop_front 12 p (size ++ (sum ++ rest)) e

  pub at_sum : drop 16 (p ++ (size ++ (sum ++ rest))) ≡ sum ++ rest
  at_sum =
      ap (drop 16) (sym (append_assoc p size (sum ++ rest)))
      ∙ drop_front 16 (p ++ size) (sum ++ rest) (length-append p size ∙ omega arith)

  pub at_payload : drop 20 (p ++ (size ++ (sum ++ rest))) ≡ rest
  at_payload =
      ap (drop 20)
        (sym (append_assoc p size (sum ++ rest)) ∙ sym (append_assoc (p ++ size) sum rest))
      ∙ drop_front 20 ((p ++ size) ++ sum) rest (simp length-append (omega arith))

-- ===== src/Proto/Frame.antt =====
-- The frame that ntb_proto_add_command puts round a payload, and ntb_proto_check_command_string.
use notbit.Common.{
  Bool-cases, inl, inr, ==_iff, ==_ne, ℕ, zero, suc, ◌+◌, ◌-◌, ◌%◌, ◌^◌, ◌≤◌, ◌<◌, ◌≡◌, ◌≢◌, refl,
  sym, ◌∙◌, ap, arith, Bytes, List, [], ◌∷◌, ◌++◌, All, true, length, ◌==◌, drop, take, replicate,
  ok, append_assoc, length-append, length-take, length-drop, length-replicate, take_front,
  take-length, drop_front, take-append-drop, ◌↔◌, le→ltb,
}
use mathlib.Core.Path.{ap₂}
use notbit.Proto.Types.{all_zero, is_padded, check_command_string, magic, header_size}
use notbit.Proto.Write.{be_bytes, write_at, end_command, Item, add_items, add_command}
use notbit.Proto.RoundTrip.{add_items-append}

pub length-be_bytes : (n v : ℕ) → length (be_bytes n v) ≡ n
unfolding be_bytes
length-be_bytes zero v = refl
length-be_bytes (suc n) v = ap suc (length-be_bytes n v)

-- Bytes in the middle of a buffer are replaced by as many others.
pub write_at_middle :
    (xs old new ys : Bytes) (offset : ℕ)
    → length xs ≡ offset
    → length old ≡ length new
    → write_at (xs ++ (old ++ ys)) offset new ≡ xs ++ (new ++ ys)
write_at_middle xs old new ys offset e f =
    rw (take_front offset xs (old ++ ys) e, ← append_assoc xs old ys)
      (rw (drop_front (offset + length new) (xs ++ old) ys (length-append xs old ∙ omega arith)))

module _ (sha512 : Bytes → Bytes) where
  pub end_command_lem :
      (front size sum payload : Bytes) (start : ℕ)
      → length front ≡ start + 16
      → length size ≡ 4
      → length sum ≡ 4
      → length payload < 2 ^ 32
      → 4 ≤ length (sha512 payload)
      → end_command sha512 (front ++ (size ++ (sum ++ payload))) start
        ≡ front ++ (be_bytes 4 (length payload) ++ (take 4 (sha512 payload) ++ payload))
  unfolding end_command
  end_command_lem front size sum payload start e f g small hashed =
      let new = be_bytes 4 (length payload) in
      let whole : (length (front ++ (size ++ (sum ++ payload))) - start - header_size) % 2 ^ 32
          ≡ length payload =
        rw (length-append, length-append, length-append) (omega arith) in
      let sized =
        write_at_middle front size new (sum ++ payload) (start + 16) e
          (f ∙ sym (length-be_bytes 4 (length payload))) in
      let head = front ++ new in
      let split : front ++ (new ++ (sum ++ payload)) ≡ head ++ (sum ++ payload) =
        sym (append_assoc front new (sum ++ payload)) in
      let body : drop (start + header_size) (head ++ (sum ++ payload)) ≡ payload =
        rw (← append_assoc head sum payload) (
          drop_front (start + header_size) (head ++ sum) payload (
            rw (length-append, length-append)
              (omega (arith, length-be_bytes 4 (length payload))))) in
      let ends : length head ≡ start + 20 =
        length-append front new ∙ omega (arith, length-be_bytes 4 (length payload)) in
      rw (whole, sized, split, body, take-length payload)
        (write_at_middle head sum (take 4 (sha512 payload)) payload (start + 20) ends
            (g ∙ sym (length-take 4 (sha512 payload) hashed))
          ∙ append_assoc front new (take 4 (sha512 payload) ++ payload))

  -- A command of at most 12 bytes gets the magic number, its name filled up with zeroes, the length
  -- of the payload, the first 4 bytes of its hash and the payload, behind what the buffer held; what
  -- the 8 bytes for the length and the checksum held before does not matter. The payload is
  -- shorter than 2 ^ 32, and a hash has 4 bytes at least.
  pub add_command-frame :
      (now : ℕ) (junk buf command : Bytes) (items : List Item)
      → length junk ≡ 8
      → length command ≤ 12
      → length (add_items now [] items) < 2 ^ 32
      → 4 ≤ length (sha512 (add_items now [] items))
      → let payload = add_items now [] items in
        add_command sha512 now junk buf command items
        ≡ ok (
            buf
            ++ (magic
                ++ (command
                    ++ (replicate (12 - length command) 0
                        ++ (be_bytes 4 (length payload) ++ (take 4 (sha512 payload) ++ payload))))))
  unfolding add_command
  add_command-frame now junk buf command items e short small hashed =
      let payload = add_items now [] items in
      let zeros = replicate (12 - length command) 0 in
      let front = buf ++ (magic ++ (command ++ zeros)) in
      let place : add_items now (buf ++ (magic ++ (command ++ (zeros ++ junk)))) items
          ≡ front ++ (take 4 junk ++ (drop 4 junk ++ payload)) =
        add_items-append now items _
        ∙ simp append_assoc (
            ap (λ t. buf ++ (magic ++ (command ++ (zeros ++ t))))
              (ap (λ t. t ++ payload) (sym (take-append-drop 4 junk))
                ∙ append_assoc (take 4 junk) (drop 4 junk) payload)) in
      let size : length front ≡ length buf + 16 =
        simp (length-append, length-replicate) (omega arith) in
      rw (le→ltb 12 (length command) short, place)
        (ap ok (
          end_command_lem front (take 4 junk) (drop 4 junk) payload (length buf) size
            (length-take 4 junk (omega arith)) (length-drop 4 junk ∙ omega arith) small hashed
          ∙ simp append_assoc))

-- A name with no zero byte, filled up with at least one zero.
abbrev pub IsPaddedName : Bytes → Type 0
IsPaddedName p =
    (name : Bytes) × (k : ℕ) × All (λ b. b ≢ 0) name × (p ≡ name ++ replicate (suc k) 0)

all_zero→eq : (p : Bytes) → all_zero p ≡ true → p ≡ replicate (length p) 0
unfolding all_zero
all_zero→eq [] h = refl
all_zero→eq (b ∷ p) h = ground (arith, all_zero→eq p)

all_zero-replicate : (k : ℕ) → all_zero (replicate k 0) ≡ true
unfolding all_zero
all_zero-replicate zero = refl
all_zero-replicate (suc k) = all_zero-replicate k

is_padded→IsPaddedName : (p : Bytes) → is_padded p ≡ true → IsPaddedName p
unfolding is_padded
is_padded→IsPaddedName [] h = cc
is_padded→IsPaddedName (b ∷ p) h = elim (Bool-cases (b == 0)) [
  | inl e ↦
      let zeros = all_zero→eq p (rw e at h) in
      ([], length p, tt, ap₂ (λ x y. x ∷ y) ((==_iff b 0).0 e) zeros)
  | inr e ↦
      let (name, k, clean, same) = is_padded→IsPaddedName p (rw e at h) in
      (b ∷ name, k, (λ z. cc (e, (==_iff b 0).1 z), clean), ap (λ t. b ∷ t) same)
]

pub is_padded_name :
    (name : Bytes) (k : ℕ) → All (λ b. b ≢ 0) name → is_padded (name ++ replicate (suc k) 0) ≡ true
unfolding is_padded
is_padded_name [] k clean = all_zero-replicate k
is_padded_name (b ∷ name) k clean = rw (==_ne b 0 clean.0) (is_padded_name name k clean.1)

-- ntb_proto_check_command_string accepts exactly the 12 bytes that are a name without zeroes and at
-- least one zero behind it.
pub check_command_string_iff :
    (p : Bytes) → (check_command_string p ≡ true) ↔ IsPaddedName (take 12 p)
unfolding check_command_string
check_command_string_iff p = (
  is_padded→IsPaddedName (take 12 p),
  λ (name, k, clean, same). rw same (is_padded_name name k clean),
)

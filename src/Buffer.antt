-- ===== src/Buffer.antt =====
-- src/ntb-buffer.c and src/ntb-buffer.h: byte buffers that grow by doubling. `contents` are the first
-- `length` bytes of `data`, and `size` is the room allocated. ntb_realloc stops the program where
-- memory runs out, so it always returns here.
pub mod Growth
pub mod Append
mod Tests
use notbit.Common.{
  ℕ, zero, suc, ◌+◌, ◌-◌, ◌*◌, ◌%◌, ◌^◌, Bytes, [], ◌∷◌, ◌++◌, Option, none, some, ltb, take,
  length, if◌then◌else◌,
}
use Prim.Native.Nat.{max}

-- struct ntb_buffer
pub record Buffer : Type 0 where
  pub contents : Bytes
  pub size : ℕ

abbrev pub init : Buffer
init = record { contents = []; size = 0 }

-- `while (new_size < size) new_size *= 2;` on size_t; none if the loop has not ended when the fuel
-- is used up.
pub grow : ℕ → ℕ → ℕ → Option ℕ
grow zero new_size size = none
grow (suc fuel) new_size size =
    let more = grow fuel (new_size * 2 % 2 ^ 64) size in
    if ltb new_size size then more else some new_size

-- 64 rounds take any size from 1 on past 2 ^ 63.
pub ensure_size : Buffer → ℕ → Option Buffer
unfolding grow
ensure_size buffer size = elim (grow 64 (max buffer.size 1) size) [
  | none ↦ none
  | some new_size ↦ some (record buffer { size = new_size })
]

-- `junk` is what the bytes behind the contents hold.
pub set_length : Bytes → Buffer → ℕ → Option Buffer
unfolding ensure_size
set_length junk buffer size = elim (ensure_size buffer size) [
  | none ↦ none
  | some b ↦ some (record b { contents = take size (b.contents ++ junk) })
]

pub append : Buffer → Bytes → Option Buffer
unfolding ensure_size
append buffer bytes = elim (ensure_size buffer ((length buffer.contents + length bytes) % 2 ^ 64)) [
  | none ↦ none
  | some b ↦ some (record b { contents = b.contents ++ bytes })
]

pub append_c : Buffer → ℕ → Option Buffer
unfolding append
append_c buffer c =
    if ltb (length buffer.contents) buffer.size
    then some (record buffer { contents = buffer.contents ++ c ∷ [] })
    else append buffer (c ∷ [])

-- The zero at the end is appended and taken off the length again.
pub append_string : Buffer → Bytes → Option Buffer
unfolding append
append_string buffer str = elim (append buffer (str ++ 0 ∷ [])) [
  | none ↦ none
  | some b ↦ some (record b { contents = take (length b.contents - 1) b.contents })
]

-- ===== src/Proto/Integers.antt =====
-- The readers and writers of integers are inverse to each other, whatever follows in memory.
use notbit.Common.{ℕ, ◌+◌, ◌^◌, ◌<◌, ◌≡◌, ap, arith, Bytes, [], ◌++◌, length, ok}
use notbit.Proto.Read.{get_16, get_32, get_64, get_var_int}
use notbit.Proto.Write.{be_bytes, add_var_int}

pub get_16-be_bytes : (v : ℕ) (rest : Bytes) → v < 2 ^ 16 → get_16 (be_bytes 2 v ++ rest) ≡ ok v
unfolding get_16 be_bytes
get_16-be_bytes v rest h = ap ok (omega arith)

pub get_32-be_bytes : (v : ℕ) (rest : Bytes) → v < 2 ^ 32 → get_32 (be_bytes 4 v ++ rest) ≡ ok v
unfolding get_32 be_bytes
get_32-be_bytes v rest h = ap ok (omega arith)

pub get_64-be_bytes : (v : ℕ) (rest : Bytes) → v < 2 ^ 64 → get_64 (be_bytes 8 v ++ rest) ≡ ok v
unfolding get_64 be_bytes
get_64-be_bytes v rest h = ap ok (omega arith)

-- A variable-length integer of 64 bits is read back from what was written for it, with whatever
-- follows it in memory; `n` more bytes of the message are left. The whole length is below 2 ^ 31.
pub get_var_int-add_var_int :
    (v n : ℕ) (rest : Bytes)
    → v < 2 ^ 64
    → length (add_var_int [] v) + n < 2 ^ 31
    → get_var_int (record { mem = add_var_int [] v ++ rest; len = length (add_var_int [] v) + n })
      ≡ ok (v, record { mem = rest; len = n })
unfolding get_var_int add_var_int get_16 get_32 get_64 be_bytes
get_var_int-add_var_int v n rest h fits = ground arith

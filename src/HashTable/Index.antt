-- ===== src/HashTable/Index.antt =====
-- Where an entry goes: the index of a hash lies in the table, and an entry put there is found.
use Prim.Native.Nat.{bit_and, bit_and-bitwise, digits, min}
use notbit.Common.{
  ℕ, zero, suc, ◌-◌, ◌/◌, ◌≤◌, ◌<◌, ◌≡◌, refl, ◌∙◌, ap, arith, Bytes, List, [], ◌∷◌, Bool-cases,
  inl, inr, length, get_or, set, true, bytes_eq, bytes_eq→eq, if◌then◌else◌, ◌==◌, ==_iff, ==_ne,
}
use notbit.HashTable.{Value, Chain, load_32, get_index, insert_entry_at_index}

digits_le : (n a b : ℕ) → digits (λ c. zero) min n a b ≤ b
digits_le zero a b = omega arith
digits_le (suc n) zero b = omega arith
digits_le (suc n) (suc a) b = omega (arith, digits_le n (suc a / 2) (b / 2))

bit_and_le : (a b : ℕ) → bit_and a b ≤ b
bit_and_le a b = rw (bit_and-bitwise a b) (digits_le a a b)

pub get_index-lt : (size : ℕ) (hash : Bytes) → 0 < size → get_index size hash < size
unfolding get_index
get_index-lt size hash pos = omega (arith, bit_and_le (load_32 hash) (size - 1))

==_suc : (a b : ℕ) → (suc a == suc b) ≡ (a == b)
==_suc a b = ground arith

-- A list with one place changed, read at any place.
pub get_or-set :
    {A : Type 0} (xs : List A) (i j : ℕ) (v d : A)
    → i < length xs
    → get_or (set xs i v) j d ≡ (if j == i then v else get_or xs j d)
get_or-set [] i j v d h = absurd (omega arith)
get_or-set (x ∷ xs) zero zero v d h = refl
get_or-set (x ∷ xs) zero (suc j) v d h = rw (==_ne (suc j) 0 (omega arith)) refl
get_or-set (x ∷ xs) (suc i) zero v d h = rw (==_ne 0 (suc i) (omega arith)) refl
get_or-set (x ∷ xs) (suc i) (suc j) v d h = rw (==_suc j i) (get_or-set xs i j v d (omega arith))

pub bytes_eq-index :
    (size : ℕ) (a b : Bytes) → bytes_eq a b ≡ true → get_index size a ≡ get_index size b
bytes_eq-index size a b e = ap (get_index size) (bytes_eq→eq a b e)

-- The chain that a hash belongs to.
abbrev pub bucket : ℕ → List Chain → Bytes → Chain
bucket size entries hash = get_or entries (get_index size hash) []

module _ (size : ℕ) (entries : List Chain) (sized : length entries ≡ size) (pos : 0 < size) where
  pub bucket-set :
      (old hash : Bytes) (chain : Chain)
      → bucket size (set entries (get_index size old) chain) hash
        ≡ (if get_index size hash == get_index size old then chain else bucket size entries hash)
  bucket-set old hash chain =
      get_or-set entries (get_index size old) (get_index size hash) chain []
        (rw sized (get_index-lt size old pos))

  -- The chain of a hash gets the new entry if it belongs there.
  pub bucket-insert_entry_at_index :
      (entry : Value) (hash : Bytes)
      → bucket size (insert_entry_at_index entries entry (get_index size entry.hash)) hash ≡ (
          if get_index size hash == get_index size entry.hash
          then entry ∷ bucket size entries hash
          else bucket size entries hash)
  unfolding insert_entry_at_index
  bucket-insert_entry_at_index entry hash =
      let i = get_index size entry.hash in
      let j = get_index size hash in
      bucket-set entry.hash hash (entry ∷ get_or entries i [])
      ∙ elim (Bool-cases (j == i)) [ inl e ↦ rw (e, (==_iff j i).0 e) refl | inr e ↦ rw e refl ]

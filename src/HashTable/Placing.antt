-- ===== src/HashTable/Placing.antt =====
-- That each entry stands in the chain of its hash, and that moving entries keeps it so.
use notbit.Common.{ℕ, zero, suc, ◌+◌, ◌≡◌, refl, arith, List, [], ◌∷◌, All, get_or, set}
use notbit.HashTable.{
  Value, Chain, alloc_entries, get_index, insert_entry_at_index, move_chain, move_all,
}

-- Every chain has only entries whose index is its place, counted from `i`.
abbrev pub IsPlaced : ℕ → ℕ → List Chain → Type 0
IsPlaced size i [] = Unit
IsPlaced size i (chain ∷ chains) =
    All (λ e. get_index size e.hash ≡ i) chain × IsPlaced size (suc i) chains

pub IsPlaced-get_or :
    (size i j k : ℕ) (chains : List Chain)
    → k ≡ i + j
    → IsPlaced size i chains
    → All (λ e. get_index size e.hash ≡ k) (get_or chains j [])
IsPlaced-get_or size i j k [] e h = tt
IsPlaced-get_or size i zero k (chain ∷ chains) e h = rw (let f : k ≡ i = omega arith in f) h.0
IsPlaced-get_or size i (suc j) k (chain ∷ chains) e h =
    IsPlaced-get_or size (suc i) j k chains (omega arith) h.1

pub IsPlaced-set :
    (size i j k : ℕ) (chains : List Chain) (chain : Chain)
    → k ≡ i + j
    → IsPlaced size i chains
    → All (λ e. get_index size e.hash ≡ k) chain
    → IsPlaced size i (set chains j chain)
IsPlaced-set size i j k [] chain e h new = tt
IsPlaced-set size i zero k (c ∷ chains) chain e h new =
    (rw (let f : i ≡ k = omega arith in f) new, h.1)
IsPlaced-set size i (suc j) k (c ∷ chains) chain e h new =
    (h.0, IsPlaced-set size (suc i) j k chains chain (omega arith) h.1 new)

pub IsPlaced-alloc_entries : (size i n : ℕ) → IsPlaced size i (alloc_entries n)
IsPlaced-alloc_entries size i zero = tt
IsPlaced-alloc_entries size i (suc n) = (tt, IsPlaced-alloc_entries size (suc i) n)

pub get_or-alloc_entries : (n i : ℕ) → get_or (alloc_entries n) i [] ≡ []
get_or-alloc_entries zero i = refl
get_or-alloc_entries (suc n) zero = refl
get_or-alloc_entries (suc n) (suc i) = get_or-alloc_entries n i

pub IsPlaced-insert_entry_at_index :
    (size : ℕ) (entries : List Chain) (e : Value)
    → IsPlaced size 0 entries
    → IsPlaced size 0 (insert_entry_at_index entries e (get_index size e.hash))
unfolding insert_entry_at_index
IsPlaced-insert_entry_at_index size entries e h =
    let i = get_index size e.hash in
    IsPlaced-set size 0 i i entries (e ∷ get_or entries i []) (omega arith) h
      (refl, IsPlaced-get_or size 0 i i entries (omega arith) h)

IsPlaced-move_chain :
    (size : ℕ) (chain : Chain) (entries : List Chain)
    → IsPlaced size 0 entries
    → IsPlaced size 0 (move_chain size chain entries)
unfolding move_chain
IsPlaced-move_chain size [] entries h = h
IsPlaced-move_chain size (e ∷ chain) entries h =
    IsPlaced-move_chain size chain _ (IsPlaced-insert_entry_at_index size entries e h)

pub IsPlaced-move_all :
    (size : ℕ) (chains entries : List Chain)
    → IsPlaced size 0 entries
    → IsPlaced size 0 (move_all size chains entries)
unfolding move_all
IsPlaced-move_all size [] entries h = h
IsPlaced-move_all size (chain ∷ chains) entries h =
    IsPlaced-move_all size chains _ (IsPlaced-move_chain size chain entries h)

-- ===== src/HashTable/Counting.antt =====
-- How many entries a hash table has, and how many chains.
use notbit.Common.{
  ℕ, zero, suc, ◌+◌, ◌*◌, ◌/◌, ◌≤◌, ◌<◌, ◌≡◌, refl, ◌∙◌, arith, Bytes, List, [], ◌∷◌, Bool-cases,
  Option-cases, inl, inr, some, length, length-set, length-replicate, get_or, set, leb, ◌==◌,
}
use notbit.HashTable.{
  Value, Chain, Table, new, alloc_entries, get_index, find, replace, insert_entry_at_index,
  move_chain, move_all, grow, add, set_value, unlink, remove,
}
use notbit.HashTable.Grow.{length-insert_entry_at_index, length-move_chain, length-move_all}
use notbit.HashTable.Index.{bucket, get_index-lt}
use notbit.HashTable.Runs.{Call, setting, removing, getting, call, value_at}

abbrev pub total : List Chain → ℕ
total [] = 0
total (chain ∷ chains) = length chain + total chains

total-set :
    (chains : List Chain) (i : ℕ) (chain : Chain)
    → i < length chains
    → total (set chains i chain) + length (get_or chains i []) ≡ total chains + length chain
total-set [] i chain h = absurd (omega arith)
total-set (c ∷ chains) zero chain h = omega arith
total-set (c ∷ chains) (suc i) chain h = omega (arith, total-set chains i chain (omega arith))

total-insert :
    (chains : List Chain) (v : Value) (i : ℕ)
    → i < length chains
    → total (insert_entry_at_index chains v i) ≡ total chains + 1
unfolding insert_entry_at_index
total-insert chains v i h = omega (arith, total-set chains i (v ∷ get_or chains i []) h)

total-alloc : (n : ℕ) → total (alloc_entries n) ≡ 0
total-alloc zero = refl
total-alloc (suc n) = omega (arith, total-alloc n)

length-replace : (v : Value) (chain : Chain) → length (replace v chain) ≡ length chain
unfolding replace
length-replace v [] = refl
length-replace v (e ∷ chain) = ground (arith, length-replace v chain)

length-unlink :
    (v : Value) (chain rest : Chain) → unlink v chain ≡ some rest → length chain ≡ length rest + 1
unfolding unlink
length-unlink v [] rest e = cc
length-unlink v (x ∷ chain) rest e = elim (Bool-cases (x.pointer == v.pointer)) [
  | inl f ↦ ground (arith, f, e)
  | inr f ↦ elim (Option-cases (unlink v chain)) [
    | inl g ↦ absurd (cc (rw (f, g) at e))
    | inr (r, g) ↦ ground (arith, f, g, length-unlink v chain r g, e)
  ]
]

-- As many chains as the size, at least 8; the entries are counted, and are at most three for four chains.
pub record IsCounted (t : Table) : Type 0 where
  pub sized : length t.entries ≡ t.size
  pub many : 8 ≤ t.size
  pub counted : t.n_entries ≡ total t.entries
  pub load : t.n_entries * 4 ≤ t.size * 3

inside : (t : Table) (hash : Bytes) → IsCounted t → get_index t.size hash < length t.entries
inside t hash c = omega (arith, c.sized, get_index-lt t.size hash (omega (arith, c.many)))

total-move_chain :
    (size : ℕ) (chain : Chain) (entries : List Chain)
    → 0 < size
    → length entries ≡ size
    → total (move_chain size chain entries) ≡ total entries + length chain
unfolding move_chain
total-move_chain size [] entries pos sized = omega arith
total-move_chain size (e ∷ chain) entries pos sized =
    let i = get_index size e.hash in
    omega (
      arith,
      total-move_chain size chain (insert_entry_at_index entries e i) pos
          (length-insert_entry_at_index entries e i ∙ sized),
      total-insert entries e i (omega (arith, sized, get_index-lt size e.hash pos)),
    )

total-move_all :
    (size : ℕ) (chains entries : List Chain)
    → 0 < size
    → length entries ≡ size
    → total (move_all size chains entries) ≡ total entries + total chains
unfolding move_all
total-move_all size [] entries pos sized = omega arith
total-move_all size (chain ∷ chains) entries pos sized = omega (
  arith,
  total-move_all size chains (move_chain size chain entries) pos
      (length-move_chain size chain entries ∙ sized),
  total-move_chain size chain entries pos sized,
)

grow-Room :
    (t : Table)
    → IsCounted t
    → IsCounted (grow t) × ((grow t).size ≡ t.size * 2) × ((grow t).n_entries ≡ t.n_entries)
unfolding grow
grow-Room t c =
    let size = t.size * 2 in
    (
      record {
        sized = length-move_all size t.entries (alloc_entries size) ∙ length-replicate size [];
        many = omega (arith, c.many);
        counted = omega (
          arith,
          c.counted,
          total-alloc size,
          total-move_all size t.entries (alloc_entries size) (omega (arith, c.many))
              (length-replicate size []),
        );
        load = omega (arith, c.load);
      },
      refl,
      refl,
    )

add-IsCounted : (t : Table) (v : Value) → IsCounted t → IsCounted (add t v)
unfolding add
add-IsCounted t v c = elim (Bool-cases (leb (t.size * 3 / 4) t.n_entries)) [
  | inl e ↦ rw e (
      let (c', size, n) = grow-Room t c in put (grow t) c' (omega (arith, c.load, c.many, size, n)))
  | inr e ↦ rw e (put t c (ground (arith, e)))
]
  where
    put :
        (r : Table)
        → IsCounted r
        → (r.n_entries + 1) * 4 ≤ r.size * 3
        → IsCounted (record r {
          n_entries = r.n_entries + 1;
          entries = insert_entry_at_index r.entries v (get_index r.size v.hash);
        })
    put r k room = record {
      sized = length-insert_entry_at_index r.entries v _ ∙ k.sized;
      many = k.many;
      counted = omega (
        arith,
        k.counted,
        total-insert r.entries v (get_index r.size v.hash) (inside r v.hash k),
      );
      load = room;
    }

set_value-IsCounted : (t : Table) (v : Value) → IsCounted t → IsCounted (set_value t v).1
unfolding set_value
set_value-IsCounted t v c = elim (Option-cases (find v.hash (bucket t.size t.entries v.hash))) [
  | inl e ↦ rw (e, set_value) (add-IsCounted t v c)
  | inr (old, e) ↦
      let i = get_index t.size v.hash in
      let chain = bucket t.size t.entries v.hash in
      rw (e, set_value)
        (record {
          sized = length-set t.entries i (replace v chain) ∙ c.sized;
          many = c.many;
          counted = omega (
            arith,
            c.counted,
            total-set t.entries i (replace v chain) (inside t v.hash c),
            length-replace v chain,
          );
          load = c.load;
        })
]

remove-IsCounted : (t : Table) (v : Value) → IsCounted t → IsCounted (remove t v).1
unfolding remove
remove-IsCounted t v c = elim (Option-cases (unlink v (bucket t.size t.entries v.hash))) [
  | inl e ↦ rw (e, remove) c
  | inr (rest, e) ↦
      let i = get_index t.size v.hash in
      let chain = bucket t.size t.entries v.hash in
      rw (e, remove)
        (record {
          sized = length-set t.entries i rest ∙ c.sized;
          many = c.many;
          counted = omega (
            arith,
            c.counted,
            total-set t.entries i rest (inside t v.hash c),
            length-unlink v chain rest e,
          );
          load = omega (arith, c.load);
        })
]

-- The table after some calls.
abbrev pub after : (ℕ → Bytes) → List Call → Table → Table
after hash_of [] t = t
after hash_of (c ∷ calls) t = after hash_of calls (call hash_of c t).1

run-IsCounted :
    (hash_of : ℕ → Bytes) (calls : List Call) (t : Table)
    → IsCounted t
    → IsCounted (after hash_of calls t)
run-IsCounted hash_of [] t c = c
run-IsCounted hash_of (setting p ∷ calls) t c =
    run-IsCounted hash_of calls _ (set_value-IsCounted t (value_at hash_of p) c)
run-IsCounted hash_of (removing p ∷ calls) t c =
    run-IsCounted hash_of calls _ (remove-IsCounted t (value_at hash_of p) c)
run-IsCounted hash_of (getting hash ∷ calls) t c = run-IsCounted hash_of calls t c

-- After any calls of set, remove and get on a new table, n_entries is the number of entries in its chains, and
-- there are at least 8 chains and at most three entries for every four of them.
pub after-IsCounted :
    (hash_of : ℕ → Bytes) (calls : List Call) → IsCounted (after hash_of calls new)
unfolding new
after-IsCounted hash_of calls =
    run-IsCounted hash_of calls new
      (record { sized = refl; many = omega arith; counted = refl; load = omega arith })

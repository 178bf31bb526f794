-- ===== src/HashTable/Setting.antt =====
-- ntb_hash_table_set on a valid table: what it returns, what is found afterwards, and that the
-- table stays valid.
use notbit.Common.{
  ℕ, ◌+◌, ◌*◌, ◌/◌, ◌≡◌, refl, sym, ◌∙◌, ap, arith, Bytes, [], ◌∷◌, All, false, none, some,
  Bool-cases, Option-cases, inl, inr, length-set, set, bytes_eq, bytes_eq→eq, bytes_eq_refl,
  if◌then◌else◌, ◌==◌, ==_iff, leb,
}
use notbit.HashTable.{
  Value, Chain, Table, get_index, find, replace, get, new, insert_entry_at_index, grow, add,
  set_value,
}
use notbit.HashTable.Index.{bucket, bucket-set, bytes_eq-index}
use notbit.HashTable.Grow.{front-insert, length-insert_entry_at_index}
use notbit.HashTable.Placing.{
  IsPlaced-get_or, IsPlaced-set, IsPlaced-alloc_entries, get_or-alloc_entries,
  IsPlaced-insert_entry_at_index,
}
use notbit.HashTable.Lookup.{
  sum, first, hits, find-front, hits_absent, IsValid, get-grow, grow-IsValid,
}

other : (a b c : Bytes) → bytes_eq b c ≡ false → a ≡ c → bytes_eq a b ≡ false
other a b c f e = elim (Bool-cases (bytes_eq a b)) [
  | inl k ↦ cc (f, e, bytes_eq→eq a b k, bytes_eq_refl b)
  | inr k ↦ k
]

-- Replacing the value of a hash that is there.
find-replace :
    (v old : Value) (hash : Bytes) (chain : Chain)
    → find v.hash chain ≡ some old
    → find hash (replace v chain) ≡ (if bytes_eq hash v.hash then some v else find hash chain)
unfolding find replace
find-replace v old hash [] h = cc
find-replace v old hash (e ∷ chain) h = elim (Bool-cases (bytes_eq v.hash e.hash)) [
  | inl f ↦ ground (arith, f, bytes_eq→eq v.hash e.hash f)
  | inr f ↦ elim (Bool-cases (bytes_eq hash e.hash)) [
    | inl g ↦ rw (f, g, other hash v.hash e.hash f (bytes_eq→eq hash e.hash g)) refl
    | inr g ↦ rw (f, g) (find-replace v old hash chain (rw f at h))
  ]
]

hits-replace :
    (v : Value) (hash : Bytes) (chain : Chain) → hits hash (replace v chain) ≡ hits hash chain
unfolding replace
hits-replace v hash [] = refl
hits-replace v hash (e ∷ chain) = elim (Bool-cases (bytes_eq v.hash e.hash)) [
  | inl f ↦ rw (f, bytes_eq→eq v.hash e.hash f) refl
  | inr f ↦ rw f (omega (arith, hits-replace v hash chain))
]

replace-All :
    (size i : ℕ) (v : Value) (chain : Chain)
    → All (λ e. get_index size e.hash ≡ i) chain
    → All (λ e. get_index size e.hash ≡ i) (replace v chain)
unfolding replace
replace-All size i v [] h = tt
replace-All size i v (e ∷ chain) h = elim (Bool-cases (bytes_eq v.hash e.hash)) [
  | inl f ↦ rw f (bytes_eq-index size v.hash e.hash f ∙ h.0, h.1)
  | inr f ↦ rw f (h.0, replace-All size i v chain h.1)
]

-- An entry for a new hash in a table with room for it.
abbrev insert : Table → Value → Table
insert t v = record t {
  n_entries = t.n_entries + 1;
  entries = insert_entry_at_index t.entries v (get_index t.size v.hash);
}

module _ (t : Table) (valid : IsValid t) (v : Value) where
  get-insert :
      (hash : Bytes) → get (insert t v) hash ≡ (if bytes_eq hash v.hash then some v else get t hash)
  unfolding get
  get-insert hash =
      let chain = bucket t.size t.entries hash in
      find-front hash _
      ∙ front-insert first some hash t.size t.entries v valid.sized valid.pos
      ∙ elim (Bool-cases (bytes_eq hash v.hash)) [
        | inl e ↦ rw e refl
        | inr e ↦ rw e (sym (find-front hash chain))
      ]

  insert-IsValid : get t v.hash ≡ none → IsValid (insert t v)
  unfolding get
  insert-IsValid absent = record {
    sized = length-insert_entry_at_index t.entries v (get_index t.size v.hash) ∙ valid.sized;
    pos = valid.pos;
    placed = IsPlaced-insert_entry_at_index t.size t.entries v valid.placed;
    once = λ hash.
        rw (front-insert sum (λ e. 1) hash t.size t.entries v valid.sized valid.pos)
          (elim (Bool-cases (bytes_eq hash v.hash)) [
            | inl e ↦
                rw (e, bytes_eq→eq hash v.hash e)
                  (omega (arith, hits_absent v.hash (bucket t.size t.entries v.hash) absent))
            | inr e ↦ rw e (omega (arith, valid.once hash))
          ]);
  }

  -- The same with the value of a hash that is there.
  abbrev over : Table
  over = record t {
    entries = set t.entries (get_index t.size v.hash) (replace v (bucket t.size t.entries v.hash));
  }

  get-over :
      (old : Value) (hash : Bytes)
      → get t v.hash ≡ some old
      → get over hash ≡ (if bytes_eq hash v.hash then some v else get t hash)
  unfolding get
  get-over old hash present =
      let i = get_index t.size v.hash in
      let j = get_index t.size hash in
      ap (find hash) (
        bucket-set t.size t.entries valid.sized valid.pos v.hash hash
          (replace v (bucket t.size t.entries v.hash)))
      ∙ elim (Bool-cases (j == i)) [
        | inl e ↦
            rw (e, (==_iff j i).0 e)
              (find-replace v old hash (bucket t.size t.entries v.hash) present)
        | inr e ↦ elim (Bool-cases (bytes_eq hash v.hash)) [
          | inl f ↦ absurd (ground (arith, bytes_eq-index t.size hash v.hash f, e))
          | inr f ↦ rw (e, f) refl
        ]
      ]

  over-IsValid : IsValid over
  over-IsValid =
      let i = get_index t.size v.hash in
      let chain = bucket t.size t.entries v.hash in
      record {
        sized = length-set t.entries i (replace v chain) ∙ valid.sized;
        pos = valid.pos;
        placed = IsPlaced-set t.size 0 i i t.entries (replace v chain) (omega arith) valid.placed (
            replace-All t.size i v chain
              (IsPlaced-get_or t.size 0 i i t.entries (omega arith) valid.placed));
        once = λ hash.
            rw (bucket-set t.size t.entries valid.sized valid.pos v.hash hash (replace v chain))
              (elim (Bool-cases (get_index t.size hash == i)) [
                | inl e ↦
                    rw (e, hits-replace v hash chain, ← (==_iff (get_index t.size hash) i).0 e)
                      (valid.once hash)
                | inr e ↦ rw e (valid.once hash)
              ]);
      }

-- The table that an entry is added to.
abbrev room : Table → Table
room t = if leb (t.size * 3 / 4) t.n_entries then grow t else t

room-IsValid : (t : Table) → IsValid t → IsValid (room t)
room-IsValid t valid = elim (Bool-cases (leb (t.size * 3 / 4) t.n_entries)) [
  | inl e ↦ rw e (grow-IsValid t valid)
  | inr e ↦ rw e valid
]

get-room : (t : Table) (hash : Bytes) → IsValid t → get (room t) hash ≡ get t hash
get-room t hash valid = elim (Bool-cases (leb (t.size * 3 / 4) t.n_entries)) [
  | inl e ↦ rw e (get-grow t hash valid)
  | inr e ↦ rw e refl
]

set_value_present :
    (t : Table) (v old : Value) (valid : IsValid t)
    → get t v.hash ≡ some old
    → set_value t v ≡ (some old, over t valid v)
unfolding set_value get
set_value_present t v old valid e = rw (e, set_value) refl

set_value_absent :
    (t : Table) (v : Value) → get t v.hash ≡ none → set_value t v ≡ (none, insert (room t) v)
unfolding set_value get add
set_value_absent t v e = rw (e, set_value) refl

-- Setting a value in a valid table returns what the table had for its hash. Afterwards that hash
-- gives the value, and any other hash what it gave before, whether or not the table grew.
pub get-set_value :
    (t : Table) (v : Value) (hash : Bytes)
    → IsValid t
    → ((set_value t v).0 ≡ get t v.hash)
      × (get (set_value t v).1 hash ≡ (if bytes_eq hash v.hash then some v else get t hash))
get-set_value t v hash valid = elim (Option-cases (get t v.hash)) [
  | inr (old, e) ↦ rw (set_value_present t v old valid e) (sym e, get-over t valid v old hash e)
  | inl e ↦ rw (set_value_absent t v e) (
    sym e,
    get-insert (room t) (room-IsValid t valid) v hash
        ∙ ap (λ r. if bytes_eq hash v.hash then some v else r) (get-room t hash valid),
  )
]

-- Setting a value keeps a table valid.
pub set_value-IsValid : (t : Table) (v : Value) → IsValid t → IsValid (set_value t v).1
set_value-IsValid t v valid = elim (Option-cases (get t v.hash)) [
  | inr (old, e) ↦ rw (set_value_present t v old valid e) (over-IsValid t valid v)
  | inl e ↦
      rw (set_value_absent t v e)
        (insert-IsValid (room t) (room-IsValid t valid) v (get-room t v.hash valid ∙ e))
]

-- A new table is valid, and has nothing for any hash.
pub new-IsValid : IsValid new
unfolding new
new-IsValid = record {
  sized = refl;
  pos = omega arith;
  placed = IsPlaced-alloc_entries 8 0 8;
  once = λ hash. omega (arith, ap (hits hash) (get_or-alloc_entries 8 (get_index 8 hash)));
}

pub get-new : (hash : Bytes) → get new hash ≡ none
unfolding new get find
get-new hash = ap (find hash) (get_or-alloc_entries 8 (get_index 8 hash))

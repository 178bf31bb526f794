-- ===== src/HashTable/Removing.antt =====
-- ntb_hash_table_remove on a valid table: what it returns, what is found afterwards, and that the
-- table stays valid.
use notbit.Common.{
  All, ◌≢◌, ◌∷◌, ◌-◌, ◌≡◌, refl, ◌∙◌, ap, arith, Bytes, [], true, false, none, some, Bool-cases,
  Option-cases, inl, inr, length-set, get_or, set, bytes_eq, if◌then◌else◌, ◌==◌, ==_iff,
}
use notbit.HashTable.{Value, Chain, Table, get_index, find, get, unlink, remove}
use notbit.HashTable.Index.{bucket, bucket-set, bytes_eq-index}
use notbit.HashTable.Placing.{IsPlaced-get_or, IsPlaced-set}
use notbit.HashTable.Lookup.{hits, IsValid}
use notbit.HashTable.Unlink.{Determines, find-unlink, hits-unlink, unlink-All, unlink-find}

remove_found :
    (t : Table) (v : Value) (rest : Chain)
    → unlink v (bucket t.size t.entries v.hash) ≡ some rest
    → remove t v ≡ (
      true,
      record t {
        n_entries = t.n_entries - 1;
        entries = set t.entries (get_index t.size v.hash) rest;
      },
    )
unfolding remove
remove_found t v rest e = rw (e, remove) refl

-- Removing a value that the valid table has for its hash finds it; afterwards its hash gives
-- nothing, and any other hash what it gave before. In the chain of the hash a pointer determines
-- its hash.
pub get-remove :
    (t : Table) (v old : Value) (hash : Bytes)
    → IsValid t
    → Determines v (bucket t.size t.entries v.hash)
    → get t v.hash ≡ some old
    → old.pointer ≡ v.pointer
    → ((remove t v).0 ≡ true)
      × (get (remove t v).1 hash ≡ (if bytes_eq hash v.hash then none else get t hash))
unfolding get
get-remove t v old hash valid d present same =
    let chain = bucket t.size t.entries v.hash in
    let i = get_index t.size v.hash in
    let j = get_index t.size hash in
    let (rest, e) = unlink-find v old chain present same in
    rw (remove_found t v rest e) (
      refl,
      ap (find hash) (bucket-set t.size t.entries valid.sized valid.pos v.hash hash rest)
          ∙ elim (Bool-cases (j == i)) [
            | inl f ↦
                rw (f, (==_iff j i).0 f) (find-unlink v hash chain rest d (valid.once v.hash) e)
            | inr f ↦ elim (Bool-cases (bytes_eq hash v.hash)) [
              | inl g ↦ absurd (ground (arith, bytes_eq-index t.size hash v.hash g, f))
              | inr g ↦ rw (f, g) refl
            ]
          ],
    )

remove_absent :
    (t : Table) (v : Value)
    → unlink v (bucket t.size t.entries v.hash) ≡ none
    → remove t v ≡ (false, t)
unfolding remove
remove_absent t v e = rw (e, remove) refl

-- Removing any value, whether it is there or not, keeps a table valid.
pub remove-IsValid : (t : Table) (v : Value) → IsValid t → IsValid (remove t v).1
remove-IsValid t v valid =
    let chain = bucket t.size t.entries v.hash in
    let i = get_index t.size v.hash in
    elim (Option-cases (unlink v chain)) [
      | inl e ↦ rw (remove_absent t v e) valid
      | inr (rest, e) ↦ rw (remove_found t v rest e) (record {
        sized = length-set t.entries i rest ∙ valid.sized;
        pos = valid.pos;
        placed = IsPlaced-set t.size 0 i i t.entries rest (omega arith) valid.placed (
            unlink-All t.size i v chain rest e
              (IsPlaced-get_or t.size 0 i i t.entries (omega arith) valid.placed));
        once = λ hash.
            rw (bucket-set t.size t.entries valid.sized valid.pos v.hash hash rest)
              (elim (Bool-cases (get_index t.size hash == i)) [
                | inl f ↦ rw f (
                    omega (
                      arith,
                      hits-unlink v hash chain rest e,
                      ap (λ k. hits hash (get_or t.entries k []))
                          ((==_iff (get_index t.size hash) i).0 f),
                      valid.once hash,
                    ))
                | inr f ↦ rw f (valid.once hash)
              ]);
      })
    ]

unlink_apart :
    (v : Value) (chain : Chain)
    → All (λ (e : Value). e.pointer ≢ v.pointer) chain
    → unlink v chain ≡ none
unfolding unlink
unlink_apart v [] h = refl
unlink_apart v (e ∷ chain) h = elim (Bool-cases (e.pointer == v.pointer)) [
  | inl f ↦ absurd (h.0 ((==_iff e.pointer v.pointer).0 f))
  | inr f ↦ rw (f, unlink_apart v chain h.1) refl
]

-- Removing a pointer that the chain of its hash does not have changes nothing.
pub remove_unfound :
    (t : Table) (v : Value)
    → All (λ (e : Value). e.pointer ≢ v.pointer) (bucket t.size t.entries v.hash)
    → remove t v ≡ (false, t)
remove_unfound t v apart = remove_absent t v (unlink_apart v _ apart)

pub remove_apart :
    (t : Table) (v : Value)
    → All (λ (e : Value). e.pointer ≢ v.pointer) (bucket t.size t.entries v.hash)
    → (remove t v).1 ≡ t
remove_apart t v apart = rw (remove_unfound t v apart) refl

-- ===== src/HashTable/Chains.antt =====
-- The chains of a valid table of src/ntb-hash-table.c: each entry is what is found for its hash.
use notbit.Common.{
  ◌≤◌, ◌≡◌, refl, ap, ◌∙◌, arith, Bytes, [], ◌∷◌, All, Bool-cases, inl, inr, some, bytes_eq,
  bytes_eq_refl, get_or,
}
use notbit.HashTable.Index.{bucket}
use notbit.HashTable.Lookup.{IsValid, hits}
use notbit.HashTable.Placing.{IsPlaced-get_or}
use notbit.HashTable.{Value, Table, Chain, find, get, get_index}

abbrev pub IsFound : Chain → Value → Type 0
IsFound chain e = find e.hash chain ≡ some e

hits_tail : (hash : Bytes) (e : Value) (chain : Chain) → hits hash chain ≤ hits hash (e ∷ chain)
hits_tail hash e chain = elim (Bool-cases (bytes_eq hash e.hash)) [
  | inl f ↦ rw f (omega arith)
  | inr f ↦ rw f (omega arith)
]

hit : (hash : Bytes) (v : Value) (c : Chain) → find hash c ≡ some v → ¬ (hits hash c ≡ 0)
unfolding find
hit hash v [] g z = cc
hit hash v (a ∷ c) g z = ground (arith, hit hash v c)

find_tail :
    (e x : Value) (chain : Chain)
    → hits x.hash (e ∷ chain) ≤ 1
    → IsFound chain x
    → IsFound (e ∷ chain) x
unfolding find
find_tail e x chain h k = elim (Bool-cases (bytes_eq x.hash e.hash)) [
  | inl f ↦ let more = rw f at h in absurd (hit x.hash x chain k (omega arith))
  | inr f ↦ rw f k
]

All-tail :
    (e : Value) (chain part : Chain)
    → All (λ x. hits x.hash (e ∷ chain) ≤ 1) part
    → All (IsFound chain) part
    → All (IsFound (e ∷ chain)) part
All-tail e chain [] h k = tt
All-tail e chain (x ∷ part) h k = (find_tail e x chain h.0 k.0, All-tail e chain part h.1 k.1)

less_hits :
    (e : Value) (chain part : Chain)
    → All (λ x. hits x.hash (e ∷ chain) ≤ 1) part
    → All (λ x. hits x.hash chain ≤ 1) part
less_hits e chain [] h = tt
less_hits e chain (x ∷ part) h =
    (omega (arith, h.0, hits_tail x.hash e chain), less_hits e chain part h.1)

All-once : (chain : Chain) → All (λ x. hits x.hash chain ≤ 1) chain → All (IsFound chain) chain
unfolding find
All-once [] h = tt
All-once (e ∷ chain) h = (
  rw (bytes_eq_refl e.hash) refl,
  All-tail e chain chain h.1 (All-once chain (less_hits e chain chain h.1)),
)

once_in :
    (t : Table) (hash : Bytes) (valid : IsValid t) (part : Chain)
    → All (λ (e : Value). get_index t.size e.hash ≡ get_index t.size hash) part
    → All (λ (e : Value). hits e.hash (bucket t.size t.entries hash) ≤ 1) part
once_in t hash valid [] p = tt
once_in t hash valid (e ∷ part) p = (
  omega (arith, valid.once e.hash, ap (λ i. hits e.hash (get_or t.entries i [])) p.0),
  once_in t hash valid part p.1,
)

put_back :
    (t : Table) (hash : Bytes) (part : Chain)
    → All (λ (e : Value). get_index t.size e.hash ≡ get_index t.size hash) part
    → All (IsFound (bucket t.size t.entries hash)) part
    → All (λ (e : Value). find e.hash (bucket t.size t.entries e.hash) ≡ some e) part
put_back t hash [] p f = tt
put_back t hash (e ∷ part) p f =
    (ap (λ i. find e.hash (get_or t.entries i [])) p.0 ∙ f.0, put_back t hash part p.1 f.1)

-- Every entry of a chain is what a valid table has for its hash.
pub get-All :
    (t : Table) (hash : Bytes)
    → IsValid t
    → All (λ (e : Value). get t e.hash ≡ some e) (bucket t.size t.entries hash)
unfolding get
get-All t hash valid =
    let i = get_index t.size hash in
    let chain = bucket t.size t.entries hash in
    let placed = IsPlaced-get_or t.size 0 i i t.entries (omega arith) valid.placed in
    put_back t hash chain placed (All-once chain (once_in t hash valid chain placed))

-- ===== src/HashTable/Unlink.antt =====
-- The loop of ntb_hash_table_remove over a chain.
use notbit.Common.{
  ℕ, ◌≤◌, ◌≡◌, refl, ◌∙◌, ap, arith, Bytes, [], ◌∷◌, All, true, false, none, some, Bool-cases,
  Option-cases, inl, inr, bytes_eq, bytes_eq→eq, bytes_eq_refl, if◌then◌else◌, ◌==◌, ==_iff,
}
use notbit.HashTable.{Value, Chain, get_index, find, unlink}
use notbit.HashTable.Lookup.{hits}

-- A pointer determines the structure, and so its hash.
abbrev pub Determines : Value → Chain → Type 0
Determines v chain = All (λ e. (e.pointer ≡ v.pointer) → (e.hash ≡ v.hash)) chain

find_absent : (hash : Bytes) (chain : Chain) → hits hash chain ≡ 0 → find hash chain ≡ none
unfolding find
find_absent hash [] h = refl
find_absent hash (e ∷ chain) h = ground (arith, find_absent hash chain)

-- The two ways in which the loop ends at an entry.
unlink-here :
    (v e : Value) (chain : Chain)
    → (e.pointer == v.pointer) ≡ true
    → unlink v (e ∷ chain) ≡ some chain
unfolding unlink
unlink-here v e chain f = rw f refl

unlink-further :
    (v e : Value) (chain rest : Chain)
    → (e.pointer == v.pointer) ≡ false
    → unlink v (e ∷ chain) ≡ some rest
    → (r : Chain) × (unlink v chain ≡ some r) × (rest ≡ e ∷ r)
unfolding unlink
unlink-further v e chain rest f h = elim (Option-cases (unlink v chain)) [
  | inl g ↦ absurd (ground (arith, f, g))
  | inr (r, g) ↦ (r, g, ground (arith, f, g))
]

unlink-hits :
    (v : Value) (chain rest : Chain)
    → Determines v chain
    → unlink v chain ≡ some rest
    → 1 ≤ hits v.hash chain
unlink-hits v [] rest d h = unfold unlink in cc
unlink-hits v (e ∷ chain) rest d h = elim (Bool-cases (e.pointer == v.pointer)) [
  | inl f ↦ rw (d.0 ((==_iff e.pointer v.pointer).0 f), bytes_eq_refl v.hash) (omega arith)
  | inr f ↦
      let (r, g, same) = unlink-further v e chain rest f h in
      omega (arith, unlink-hits v chain r d.1 g)
]

module _ (v : Value) (hash : Bytes) (e : Value) (chain : Chain) where
  find-unlink_here :
      e.hash ≡ v.hash
      → hits v.hash (e ∷ chain) ≤ 1
      → find hash chain ≡ (if bytes_eq hash v.hash then none else find hash (e ∷ chain))
  unfolding find
  find-unlink_here p once = elim (Bool-cases (bytes_eq hash v.hash)) [
    | inl k ↦
        let own : bytes_eq v.hash e.hash ≡ true = ap (bytes_eq v.hash) p ∙ bytes_eq_refl v.hash in
        let gone = find_absent v.hash chain (ground (arith, own)) in
        rw k (ap (λ t. find t chain) (bytes_eq→eq hash v.hash k) ∙ gone)
    | inr k ↦
        let miss : bytes_eq hash e.hash ≡ false = ap (bytes_eq hash) p ∙ k in rw (k, miss) refl
  ]

  find-unlink_further :
      (r : Chain)
      → bytes_eq v.hash e.hash ≡ false
      → find hash r ≡ (if bytes_eq hash v.hash then none else find hash chain)
      → find hash (e ∷ r) ≡ (if bytes_eq hash v.hash then none else find hash (e ∷ chain))
  unfolding find
  find-unlink_further r apart rest = elim (Bool-cases (bytes_eq hash v.hash)) [
    | inl k ↦
        let miss : bytes_eq hash e.hash ≡ false =
          ap (λ t. bytes_eq t e.hash) (bytes_eq→eq hash v.hash k) ∙ apart in
        rw (k, miss) (rw k at rest)
    | inr k ↦ rw k (ap (λ t. if bytes_eq hash e.hash then some e else t) (rw k at rest))
  ]

pub find-unlink :
    (v : Value) (hash : Bytes) (chain rest : Chain)
    → Determines v chain
    → hits v.hash chain ≤ 1
    → unlink v chain ≡ some rest
    → find hash rest ≡ (if bytes_eq hash v.hash then none else find hash chain)
find-unlink v hash [] rest d once h = unfold unlink in cc
find-unlink v hash (e ∷ chain) rest d once h = elim (Bool-cases (e.pointer == v.pointer)) [
  | inl f ↦
      let same : chain ≡ rest = cc (unlink-here v e chain f, h) in
      rw (← same) (find-unlink_here v hash e chain (d.0 ((==_iff e.pointer v.pointer).0 f)) once)
  | inr f ↦
      let (r, g, same) = unlink-further v e chain rest f h in
      let some_hit = unlink-hits v chain r d.1 g in
      let apart : bytes_eq v.hash e.hash ≡ false = ground (arith, some_hit, once) in
      rw same (
        find-unlink_further v hash e chain r apart
          (find-unlink v hash chain r d.1 (omega (arith, once)) g))
]

pub hits-unlink :
    (v : Value) (hash : Bytes) (chain rest : Chain)
    → unlink v chain ≡ some rest
    → hits hash rest ≤ hits hash chain
hits-unlink v hash [] rest h = unfold unlink in cc
hits-unlink v hash (e ∷ chain) rest h = elim (Bool-cases (e.pointer == v.pointer)) [
  | inl f ↦ let same : chain ≡ rest = cc (unlink-here v e chain f, h) in rw (← same) (omega arith)
  | inr f ↦
      let (r, g, same) = unlink-further v e chain rest f h in
      rw same (omega (arith, hits-unlink v hash chain r g))
]

pub unlink-All :
    (size i : ℕ) (v : Value) (chain rest : Chain)
    → unlink v chain ≡ some rest
    → All (λ e. get_index size e.hash ≡ i) chain
    → All (λ e. get_index size e.hash ≡ i) rest
unlink-All size i v [] rest h all = unfold unlink in cc
unlink-All size i v (e ∷ chain) rest h all = elim (Bool-cases (e.pointer == v.pointer)) [
  | inl f ↦ let same : chain ≡ rest = cc (unlink-here v e chain f, h) in rw (← same) all.1
  | inr f ↦
      let (r, g, same) = unlink-further v e chain rest f h in
      rw same (all.0, unlink-All size i v chain r g all.1)
]

unlink_behind :
    (v e : Value) (chain rest : Chain)
    → (e.pointer == v.pointer) ≡ false
    → unlink v chain ≡ some rest
    → unlink v (e ∷ chain) ≡ some (e ∷ rest)
unfolding unlink
unlink_behind v e chain rest f g = rw (f, g) refl

find_behind :
    (v old e : Value) (chain : Chain)
    → (e.pointer == v.pointer) ≡ false
    → old.pointer ≡ v.pointer
    → find v.hash (e ∷ chain) ≡ some old
    → find v.hash chain ≡ some old
unfolding find
find_behind v old e chain f p h = elim (Bool-cases (bytes_eq v.hash e.hash)) [
  | inl k ↦ let same : some e ≡ some old = rw k at h in absurd (ground (arith, f, p, same))
  | inr k ↦ rw k at h
]

-- A value that is in a table is found again by its pointer.
pub unlink-find :
    (v old : Value) (chain : Chain)
    → find v.hash chain ≡ some old
    → old.pointer ≡ v.pointer
    → (rest : Chain) × (unlink v chain ≡ some rest)
unlink-find v old [] h p = unfold find in cc
unlink-find v old (e ∷ chain) h p = elim (Bool-cases (e.pointer == v.pointer)) [
  | inl f ↦ (chain, unlink-here v e chain f)
  | inr f ↦
      let (rest, g) = unlink-find v old chain (find_behind v old e chain f p h) p in
      (e ∷ rest, unlink_behind v e chain rest f g)
]

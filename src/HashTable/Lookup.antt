-- ===== src/HashTable/Lookup.antt =====
-- A table as a finite map from hashes to values: what is looked up after growing and after setting.
use notbit.Common.{
  ℕ, ◌+◌, ◌*◌, ◌≤◌, ◌<◌, ◌≡◌, refl, ◌∙◌, ap, arith, Bytes, [], ◌∷◌, Option, none, some, Bool-cases,
  inl, inr, length, bytes_eq, length-replicate,
}
use notbit.HashTable.{Value, Chain, Table, alloc_entries, find, get, grow}
use notbit.HashTable.Index.{bucket}
use notbit.HashTable.Grow.{Monoid, front, back, front-grow, length-move_all}
use notbit.HashTable.Placing.{IsPlaced, IsPlaced-alloc_entries, IsPlaced-move_all}

abbrev pub sum : Monoid ℕ
sum = record {
  unit = 0;
  op = λ a b. a + b;
  op-assoc = λ a b c. omega arith;
  op_left = λ a. omega arith;
  op_right = λ a. omega arith;
}

abbrev pub or_else : Option Value → Option Value → Option Value
or_else none b = b
or_else (some a) b = some a

abbrev pub first : Monoid (Option Value)
first = record {
  unit = none;
  op = or_else;
  op-assoc = λ a b c. assoc a b c;
  op_left = λ a. refl;
  op_right = λ a. right a;
}
  where
    assoc : (a b c : Option Value) → or_else (or_else a b) c ≡ or_else a (or_else b c)
    assoc none b c = refl
    assoc (some a) b c = refl

    right : (a : Option Value) → or_else a none ≡ a
    right none = refl
    right (some a) = refl

-- How many entries of a chain have a hash.
abbrev pub hits : Bytes → Chain → ℕ
hits hash chain = front sum (λ e. 1) hash chain

pub find-front : (hash : Bytes) (chain : Chain) → find hash chain ≡ front first some hash chain
unfolding find
find-front hash [] = refl
find-front hash (e ∷ chain) = elim (Bool-cases (bytes_eq hash e.hash)) [
  | inl f ↦ rw f refl
  | inr f ↦ rw f (find-front hash chain)
]

back-hits : (hash : Bytes) (chain : Chain) → back sum (λ e. 1) hash chain ≡ hits hash chain
back-hits hash [] = refl
back-hits hash (e ∷ chain) = omega (arith, back-hits hash chain)

pub hits_absent : (hash : Bytes) (chain : Chain) → find hash chain ≡ none → hits hash chain ≡ 0
unfolding find
hits_absent hash [] h = refl
hits_absent hash (e ∷ chain) h = ground (arith, hits_absent hash chain)

back_absent :
    (hash : Bytes) (chain : Chain) → hits hash chain ≡ 0 → back first some hash chain ≡ none
back_absent hash [] h = refl
back_absent hash (e ∷ chain) h = elim (Bool-cases (bytes_eq hash e.hash)) [
  | inl f ↦ absurd (ground (arith, f))
  | inr f ↦ rw f (ap (λ t. or_else t none) (back_absent hash chain (ground (arith, f))))
]

-- With one entry for a hash at most, the first is the last.
back-find :
    (hash : Bytes) (chain : Chain)
    → hits hash chain ≤ 1
    → back first some hash chain ≡ find hash chain
unfolding find
back-find hash [] h = refl
back-find hash (e ∷ chain) h = elim (Bool-cases (bytes_eq hash e.hash)) [
  | inl f ↦ rw f (ap (λ t. or_else t (some e)) (back_absent hash chain (ground (arith, f))))
  | inr f ↦ rw f (
      ap (λ t. or_else t none) (back-find hash chain (ground (arith, f)))
      ∙ first.op_right (find hash chain))
]

-- The chains are as many as the size says, each entry stands in the chain of its hash, and no two
-- entries have one hash.
pub record IsValid (t : Table) : Type 0 where
  pub sized : length t.entries ≡ t.size
  pub pos : 0 < t.size
  pub placed : IsPlaced t.size 0 t.entries
  pub once : (hash : Bytes) → hits hash (bucket t.size t.entries hash) ≤ 1

-- Growing a valid table does not change what is found for any hash.
pub get-grow : (t : Table) (hash : Bytes) → IsValid t → get (grow t) hash ≡ get t hash
unfolding get
get-grow t hash v =
    find-front hash (bucket (grow t).size (grow t).entries hash)
    ∙ front-grow first some hash t v.placed v.pos
    ∙ back-find hash (bucket t.size t.entries hash) (v.once hash)

pub grow-IsValid : (t : Table) → IsValid t → IsValid (grow t)
grow-IsValid t v = record {
  sized =
      unfold grow in
      length-move_all (t.size * 2) t.entries (alloc_entries (t.size * 2))
      ∙ length-replicate (t.size * 2) [];
  pos = unfold grow in omega (arith, v.pos);
  placed =
      unfold grow in
      IsPlaced-move_all (t.size * 2) t.entries (alloc_entries (t.size * 2))
        (IsPlaced-alloc_entries (t.size * 2) 0 (t.size * 2));
  once = λ hash.
      rw
        (
          front-grow sum (λ e. 1) hash t v.placed v.pos,
          back-hits hash (bucket t.size t.entries hash),
        )
        (v.once hash);
}

-- ===== src/HashTable/Grow.antt =====
-- What the loops of ntb_hash_table_grow do to the entries for one hash. They turn the order in a
-- chain round, so the entries are gathered in a monoid, from the front or from the back.
use notbit.Common.{
  ℕ, zero, suc, ◌+◌, ◌*◌, ◌<◌, ◌≡◌, ◌≢◌, refl, sym, ◌∙◌, ap, arith, Bytes, List, [], ◌∷◌, All,
  Bool-cases, inl, inr, length, length-set, get_or, bytes_eq, if◌then◌else◌, ◌==◌, length-replicate,
}
use mathlib.Core.Path.{ap₂}
use notbit.HashTable.{
  Value, Chain, Table, alloc_entries, get_index, insert_entry_at_index, move_chain, move_all, grow,
}
use notbit.HashTable.Index.{bucket, bucket-insert_entry_at_index, bytes_eq-index}
use notbit.HashTable.Placing.{IsPlaced, get_or-alloc_entries}

pub record Monoid {ℓ} (M : Type ℓ) : Type ℓ where
  pub unit : M
  pub op : M → M → M
  pub op-assoc : (x y z : M) → op (op x y) z ≡ op x (op y z)
  pub op_left : (x : M) → op unit x ≡ x
  pub op_right : (x : M) → op x unit ≡ x

pub length-insert_entry_at_index :
    (entries : List Chain) (entry : Value) (i : ℕ)
    → length (insert_entry_at_index entries entry i) ≡ length entries
unfolding insert_entry_at_index
length-insert_entry_at_index entries entry i = length-set entries i _

pub length-move_chain :
    (size : ℕ) (chain : Chain) (entries : List Chain)
    → length (move_chain size chain entries) ≡ length entries
unfolding move_chain
length-move_chain size [] entries = refl
length-move_chain size (e ∷ chain) entries =
    length-move_chain size chain _ ∙ length-insert_entry_at_index entries e _

pub length-move_all :
    (size : ℕ) (chains entries : List Chain)
    → length (move_all size chains entries) ≡ length entries
unfolding move_all
length-move_all size [] entries = refl
length-move_all size (chain ∷ chains) entries =
    length-move_all size chains _ ∙ length-move_chain size chain entries

module _ {M : Type 0} (m : Monoid M) (one : Value → M) (hash : Bytes) where
  abbrev pub single : Value → M
  single e = if bytes_eq hash e.hash then one e else m.unit

  abbrev pub front : Chain → M
  front [] = m.unit
  front (e ∷ chain) = m.op (single e) (front chain)

  abbrev pub back : Chain → M
  back [] = m.unit
  back (e ∷ chain) = m.op (back chain) (single e)

  abbrev back_all : List Chain → M
  back_all [] = m.unit
  back_all (chain ∷ chains) = m.op (back_all chains) (back chain)

  single_elsewhere :
      (size : ℕ) (e : Value) → get_index size hash ≢ get_index size e.hash → single e ≡ m.unit
  single_elsewhere size e h = elim (Bool-cases (bytes_eq hash e.hash)) [
    | inl f ↦ absurd (h (bytes_eq-index size hash e.hash f))
    | inr f ↦ rw f refl
  ]

  back_elsewhere :
      (size i : ℕ) (chain : Chain)
      → All (λ e. get_index size e.hash ≡ i) chain
      → get_index size hash ≢ i
      → back chain ≡ m.unit
  back_elsewhere size i [] h k = refl
  back_elsewhere size i (e ∷ chain) h k =
      ap₂ m.op (back_elsewhere size i chain h.1 k) (single_elsewhere size e (λ f. k (f ∙ h.0)))
      ∙ m.op_left m.unit

  back_all_before :
      (size i : ℕ) (chains : List Chain)
      → IsPlaced size i chains
      → get_index size hash < i
      → back_all chains ≡ m.unit
  back_all_before size i [] h k = refl
  back_all_before size i (chain ∷ chains) h k =
      ap₂ m.op (back_all_before size (suc i) chains h.1 (omega arith))
        (back_elsewhere size i chain h.0 (λ e. omega arith))
      ∙ m.op_left m.unit

  -- Of all the chains only that of the hash has entries for it.
  back_all-bucket :
      (size i j : ℕ) (chains : List Chain)
      → IsPlaced size i chains
      → get_index size hash ≡ i + j
      → back_all chains ≡ back (get_or chains j [])
  back_all-bucket size i j [] h e = refl
  back_all-bucket size i zero (chain ∷ chains) h e =
      ap (λ t. m.op t (back chain)) (back_all_before size (suc i) chains h.1 (omega arith))
      ∙ m.op_left (back chain)
  back_all-bucket size i (suc j) (chain ∷ chains) h e =
      ap₂ m.op (back_all-bucket size (suc i) j chains h.1 (omega arith))
        (back_elsewhere size i chain h.0 (λ f. omega arith))
      ∙ m.op_right (back (get_or chains j []))

  pub front-insert :
      (size : ℕ) (entries : List Chain) (e : Value)
      → length entries ≡ size
      → 0 < size
      → front (bucket size (insert_entry_at_index entries e (get_index size e.hash)) hash)
        ≡ m.op (single e) (front (bucket size entries hash))
  front-insert size entries e sized pos =
      ap front (bucket-insert_entry_at_index size entries sized pos e hash)
      ∙ elim (Bool-cases (get_index size hash == get_index size e.hash)) [
        | inl f ↦ rw f refl
        | inr f ↦ rw f (
            sym (
              ap (λ t. m.op t (front (bucket size entries hash)))
                (single_elsewhere size e (λ g. ground (arith, f, g)))
              ∙ m.op_left (front (bucket size entries hash))))
      ]

  front-move_chain :
      (size : ℕ) (chain : Chain) (entries : List Chain)
      → length entries ≡ size
      → 0 < size
      → front (bucket size (move_chain size chain entries) hash)
        ≡ m.op (back chain) (front (bucket size entries hash))
  unfolding move_chain
  front-move_chain size [] entries sized pos = sym (m.op_left _)
  front-move_chain size (e ∷ chain) entries sized pos =
      front-move_chain size chain _ (length-insert_entry_at_index entries e _ ∙ sized) pos
      ∙ ap (m.op (back chain)) (front-insert size entries e sized pos)
      ∙ sym (m.op-assoc (back chain) (single e) (front (bucket size entries hash)))

  front-move_all :
      (size : ℕ) (chains entries : List Chain)
      → length entries ≡ size
      → 0 < size
      → front (bucket size (move_all size chains entries) hash)
        ≡ m.op (back_all chains) (front (bucket size entries hash))
  unfolding move_all
  front-move_all size [] entries sized pos = sym (m.op_left _)
  front-move_all size (chain ∷ chains) entries sized pos =
      front-move_all size chains _ (length-move_chain size chain entries ∙ sized) pos
      ∙ ap (m.op (back_all chains)) (front-move_chain size chain entries sized pos)
      ∙ sym (m.op-assoc (back_all chains) (back chain) (front (bucket size entries hash)))

  -- After growing, the chain of the hash holds from its front what it held from its back before.
  pub front-grow :
      (t : Table)
      → IsPlaced t.size 0 t.entries
      → 0 < t.size
      → front (bucket (grow t).size (grow t).entries hash) ≡ back (bucket t.size t.entries hash)
  unfolding grow
  front-grow t placed pos =
      front-move_all (t.size * 2) t.entries (alloc_entries (t.size * 2))
        (length-replicate (t.size * 2) []) (omega arith)
      ∙ ap₂ m.op (back_all-bucket t.size 0 (get_index t.size hash) t.entries placed (omega arith))
          (ap front (get_or-alloc_entries (t.size * 2) (get_index (t.size * 2) hash)))
      ∙ m.op_right (back (bucket t.size t.entries hash))

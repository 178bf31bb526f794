-- ===== src/Network/Items/Entered.antt =====
-- The table of the items of src/ntb-network.c: it has each item under its hash, and nothing else.
use notbit.Common.{
  some_injective, ℕ, ◌+◌, ◌≤◌, ◌%◌, ◌≡◌, ◌≢◌, refl, sym, ◌∙◌, ap, arith, Bytes, [], ◌∷◌, All,
  Bool-cases, inl, inr, Option, none, some, ◌==◌, ==_iff, ==_refl, if◌then◌else◌, bytes_eq,
  bytes_eq→eq, bytes_eq_refl,
}
use notbit.HashTable.Chains.{get-All}
use notbit.HashTable.Lookup.{IsValid}
use notbit.HashTable.Removing.{get-remove, remove-IsValid}
use notbit.HashTable.Setting.{get-set_value, set_value-IsValid}
use notbit.HashTable.Unlink.{Determines}
use notbit.HashTable.{Value, Table, Chain, get, set_value, remove}
use notbit.Network.Items.{InvState, InventoryItem, item_size, put_at}

-- An item that a table has under a hash.
pub record Has (cells : ℕ → Option InventoryItem) (hash : Bytes) (v : Value) : Type 0 where
  pub item : InventoryItem
  pub is_there : cells v.pointer ≡ some item
  pub hash_is : item.hash ≡ hash
  pub value_is : v.hash ≡ hash

-- The addresses from `next` on are free.
pub record IsEntered (cells : ℕ → Option InventoryItem) (next : ℕ) (t : Table) : Type 0 where
  pub valid : IsValid t
  pub live : (hash : Bytes) (v : Value) → get t hash ≡ some v → Has cells hash v
  pub entered :
      (address : ℕ) (item : InventoryItem)
      → cells address ≡ some item
      → get t item.hash ≡ some (record { pointer = address; hash = item.hash })
  pub fresh : (address : ℕ) → next ≤ address → cells address ≡ none
  pub aligned :
      (address : ℕ) (item : InventoryItem) → cells address ≡ some item → address % item_size ≡ 0
  pub next_aligned : next % item_size ≡ 0

pub put_at_same {ℓ} : {A : Type ℓ} (p : ℕ) (a : A) (cells : ℕ → A) → put_at p a cells p ≡ a
put_at_same p a cells = rw (==_refl p) refl

pub put_at_other {ℓ} :
    {A : Type ℓ} (p q : ℕ) (a : A) (cells : ℕ → A) → q ≢ p → put_at p a cells q ≡ cells q
put_at_other p q a cells ne = ground arith

-- A write where there was an item, with the same hash: the table stays right.
module _ (cells : ℕ → Option InventoryItem) (next : ℕ) (t : Table)
    (s : IsEntered cells next t) where
  pub write-IsEntered :
      (p : ℕ) (item item' : InventoryItem)
      → cells p ≡ some item
      → item'.hash ≡ item.hash
      → IsEntered (put_at p (some item') cells) next t
  write-IsEntered p item item' here same = record {
    valid = s.valid;
    live = λ hash v found.
        let has = s.live hash v found in
        elim (Bool-cases (v.pointer == p)) [
          | inl e ↦
              let there : cells v.pointer ≡ some item =
                ap cells ((==_iff v.pointer p).0 e) ∙ here in
              record {
                item = item';
                is_there = rw e refl;
                hash_is = cc (same, has.hash_is, has.is_there, there);
                value_is = has.value_is;
              }
          | inr e ↦ record {
            item = has.item;
            is_there = rw e has.is_there;
            hash_is = has.hash_is;
            value_is = has.value_is;
          }
        ];
    entered = λ address i there. elim (Bool-cases (address == p)) [
      | inl e ↦
          let i_is : item' ≡ i = some_injective (rw e at there) in
          rw (← i_is, same, (==_iff address p).0 e) (s.entered p item here)
      | inr e ↦ s.entered address i (rw e at there)
    ];
    fresh = λ address le. elim (Bool-cases (address == p)) [
      | inl e ↦ absurd (cc (s.fresh address le, here, (==_iff address p).0 e))
      | inr e ↦ rw e (s.fresh address le)
    ];
    aligned = λ address i there. elim (Bool-cases (address == p)) [
      | inl e ↦ rw ((==_iff address p).0 e) (s.aligned p item here)
      | inr e ↦ s.aligned address i (rw e at there)
    ];
    next_aligned = s.next_aligned;
  }

  pub create-IsEntered :
      (hash : Bytes) (state : InvState)
      → get t hash ≡ none
      → IsEntered
          (put_at next (some (record { hash = hash; state = state })) cells)
          (next + item_size)
          (set_value t (record { pointer = next; hash = hash })).1
  create-IsEntered hash state absent =
      let made : Value = record { pointer = next; hash = hash } in
      let got : (other : Bytes)
          → get (set_value t made).1 other
            ≡ (if bytes_eq other hash then some made else get t other) =
        λ other. (get-set_value t made other s.valid).1 in
      record {
        valid = set_value-IsValid t made s.valid;
        live = λ other v found. elim (Bool-cases (bytes_eq other hash)) [
          | inl e ↦
              let v_is : made ≡ v = some_injective (sym (rw e at (got other)) ∙ found) in
              rw (← v_is, bytes_eq→eq other hash e)
                (record {
                  item = record { hash = hash; state = state };
                  is_there = put_at_same next _ cells;
                  hash_is = refl;
                  value_is = refl;
                })
          | inr e ↦
              let has = s.live other v (sym (rw e at (got other)) ∙ found) in
              let ne : v.pointer ≢ next = λ k. cc (s.fresh next (omega arith), has.is_there, k) in
              record {
                item = has.item;
                is_there = put_at_other next v.pointer _ cells ne ∙ has.is_there;
                hash_is = has.hash_is;
                value_is = has.value_is;
              }
        ];
        entered = λ address i there. elim (Bool-cases (address == next)) [
          | inl e ↦
              let i_is : record { hash = hash; state = state } ≡ i =
                some_injective (rw e at there) in
              rw (← i_is, (==_iff address next).0 e) (got hash ∙ rw (bytes_eq_refl hash) refl)
          | inr e ↦
              let old = s.entered address i (rw e at there) in
              elim (Bool-cases (bytes_eq i.hash hash)) [
                | inl f ↦ absurd (cc (old, absent, bytes_eq→eq i.hash hash f))
                | inr f ↦ got i.hash ∙ rw f old
              ]
        ];
        fresh = λ address le.
            put_at_other next address _ cells (λ k. omega arith) ∙ s.fresh address (omega arith);
        aligned = λ address i there. elim (Bool-cases (address == next)) [
          | inl e ↦ rw ((==_iff address next).0 e) s.next_aligned
          | inr e ↦ s.aligned address i (rw e at there)
        ];
        next_aligned = omega (arith, s.next_aligned);
      }

  -- What the table has for an address has the hash of the item there.
  pub determines :
      (p : ℕ) (item : InventoryItem) (chain : Chain)
      → cells p ≡ some item
      → All (λ (e : Value). get t e.hash ≡ some e) chain
      → Determines (record { pointer = p; hash = item.hash }) chain
  determines p item [] here found = tt
  determines p item (e ∷ chain) here found = (
    λ same. let has = s.live e.hash e found.0 in cc (has.hash_is, has.is_there, here, same),
    determines p item chain here found.1,
  )

  pub leave-IsEntered :
      (p : ℕ) (item : InventoryItem)
      → cells p ≡ some item
      → IsEntered (put_at p none cells) next (remove t (record { pointer = p; hash = item.hash })).1
  leave-IsEntered p item here =
      let gone : Value = record { pointer = p; hash = item.hash } in
      let got : (other : Bytes)
          → get (remove t gone).1 other ≡ (if bytes_eq other item.hash then none else get t other) =
        λ other.
          (get-remove t gone gone other s.valid
            (determines p item _ here (get-All t item.hash s.valid)) (s.entered p item here)
            refl).1 in
      record {
        valid = remove-IsValid t gone s.valid;
        live = λ other v found. elim (Bool-cases (bytes_eq other item.hash)) [
          | inl e ↦ absurd (cc (rw e at (got other), found))
          | inr e ↦
              let has = s.live other v (sym (rw e at (got other)) ∙ found) in
              let ne : v.pointer ≢ p = λ k.
                let same : item.hash ≡ other = cc (has.hash_is, has.is_there, here, k) in
                cc (e, bytes_eq_refl other, same) in
              record {
                item = has.item;
                is_there = put_at_other p v.pointer _ cells ne ∙ has.is_there;
                hash_is = has.hash_is;
                value_is = has.value_is;
              }
        ];
        entered = λ address i there. elim (Bool-cases (address == p)) [
          | inl e ↦ absurd (cc (rw e at there))
          | inr e ↦
              let old = s.entered address i (rw e at there) in
              elim (Bool-cases (bytes_eq i.hash item.hash)) [
                | inl f ↦
                    let same : i.hash ≡ item.hash = bytes_eq→eq i.hash item.hash f in
                    let under : get t i.hash ≡ some gone = rw same (s.entered p item here) in
                    let q_is : address ≡ p = cc (old, under) in absurd (cc (e, q_is, ==_refl p))
                | inr f ↦ got i.hash ∙ rw f old
              ]
        ];
        fresh = λ address le. elim (Bool-cases (address == p)) [
          | inl e ↦ rw e refl
          | inr e ↦ rw e (s.fresh address le)
        ];
        aligned = λ address i there. elim (Bool-cases (address == p)) [
          | inl e ↦ absurd (cc (rw e at there))
          | inr e ↦ s.aligned address i (rw e at there)
        ];
        next_aligned = s.next_aligned;
      }

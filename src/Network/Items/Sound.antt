-- ===== src/Network/Items/Sound.antt =====
-- The invariant of the inventory of src/ntb-network.c, and the steps that all operations are made of.
use notbit.Common.{
  ℕ, ◌≡◌, ◌≢◌, refl, arith, Bytes, List, ◌∷◌, All, Bool, Bool-cases, inl, inr, true, false, Option,
  none, some, ◌==◌, ==_iff,
}
use notbit.HashTable.{get}
use notbit.Network.Items.Entered.{
  IsEntered, write-IsEntered, create-IsEntered, leave-IsEntered, put_at_same,
}
use notbit.Network.Items.Lists.{
  is_stub, is_accepted, is_rejected, IsList, Holds-not, Holds-none, apart, keep, join,
}
use notbit.Network.Items.{
  InvState, unset, stub, rejected, accepted, InventoryItem, Inventories, put_at, write, enter,
  create, leave, free_inventory,
}

-- The table has every item under its hash and nothing else, and the lists have different items, each in
-- the state that belongs to the list.
pub record IsSound (s : Inventories) : Type 0 where
  pub table : IsEntered s.cells s.next_address s.inventory_hash
  pub requested_lists : (peer : ℕ) → IsList (is_stub peer) s.cells (s.requested_inventories peer)
  pub accepted_list : IsList is_accepted s.cells s.accepted_inventories
  pub rejected_list : IsList is_rejected s.cells s.rejected_inventories

-- The lists of all peers, when the one of a peer is changed.
pub put_list :
    (cells : ℕ → Option InventoryItem) (peer : ℕ) (list : List ℕ) (lists : ℕ → List ℕ)
    → IsList (is_stub peer) cells list
    → ((q : ℕ) → q ≢ peer → IsList (is_stub q) cells (lists q))
    → (q : ℕ) → IsList (is_stub q) cells (put_at peer list lists q)
put_list cells peer list lists h k q = elim (Bool-cases (q == peer)) [
  | inl e ↦ rw (e, (==_iff q peer).0 e) h
  | inr e ↦ rw e (k q (λ same. cc (e, (==_iff q peer).1 same)))
]

pub accepted_only :
    (state : InvState)
    → is_accepted state ≡ true
    → ((q : ℕ) → is_stub q state ≡ false) × (is_rejected state ≡ false)
accepted_only unset h = cc
accepted_only (stub _ _) h = cc
accepted_only (rejected _) h = cc
accepted_only (accepted _ _ _) h = (λ q. refl, refl)

pub rejected_only :
    (state : InvState)
    → is_rejected state ≡ true
    → ((q : ℕ) → is_stub q state ≡ false) × (is_accepted state ≡ false)
rejected_only unset h = cc
rejected_only (stub _ _) h = cc
rejected_only (accepted _ _ _) h = cc
rejected_only (rejected _) h = (λ q. refl, refl)

-- An item that is in no list.
pub record IsLoose (s : Inventories) (p : ℕ) (item : InventoryItem) : Type 0 where
  pub is_there : s.cells p ≡ some item
  pub not_requested : (peer : ℕ) → All (λ a. a ≢ p) (s.requested_inventories peer)
  pub not_accepted : All (λ a. a ≢ p) s.accepted_inventories
  pub not_rejected : All (λ a. a ≢ p) s.rejected_inventories

module _ (s : Inventories) (sound : IsSound s) where
  -- A new item.
  pub create-IsSound :
      (hash : Bytes) (state : InvState)
      → get s.inventory_hash hash ≡ none
      → IsSound (create hash state s)
        × IsLoose (create hash state s) s.next_address (record { hash = hash; state = state })
  unfolding create enter
  create-IsSound hash state none_yet =
      let p = s.next_address in
      let item : InventoryItem = record { hash = hash; state = state } in
      let free = sound.table.fresh p (omega arith) in
      let far : (test : InvState → Bool) (list : List ℕ)
          → IsList test s.cells list
          → All (λ a. a ≢ p) list =
        λ test list h. apart test s.cells p list (Holds-none test s.cells p free) h.0 in
      (
        record {
          table = create-IsEntered s.cells p s.inventory_hash sound.table hash state none_yet;
          requested_lists = λ peer.
              keep (is_stub peer) s.cells p (some item) _
                (far (is_stub peer) _ (sound.requested_lists peer)) (sound.requested_lists peer);
          accepted_list =
              keep is_accepted s.cells p (some item) _ (far is_accepted _ sound.accepted_list)
                sound.accepted_list;
          rejected_list =
              keep is_rejected s.cells p (some item) _ (far is_rejected _ sound.rejected_list)
                sound.rejected_list;
        },
        record {
          is_there = put_at_same p (some item) s.cells;
          not_requested = λ peer. far (is_stub peer) _ (sound.requested_lists peer);
          not_accepted = far is_accepted _ sound.accepted_list;
          not_rejected = far is_rejected _ sound.rejected_list;
        },
      )

  -- A loose item is released with its entry.
  pub free-IsSound :
      (p : ℕ) (item : InventoryItem)
      → IsLoose s p item
      → IsSound (free_inventory p (leave p item s))
  unfolding leave
  free-IsSound p item loose = record {
    table =
        leave-IsEntered s.cells s.next_address s.inventory_hash sound.table p item loose.is_there;
    requested_lists = λ peer.
        keep (is_stub peer) s.cells p none _ (loose.not_requested peer)
          (sound.requested_lists peer);
    accepted_list = keep is_accepted s.cells p none _ loose.not_accepted sound.accepted_list;
    rejected_list = keep is_rejected s.cells p none _ loose.not_rejected sound.rejected_list;
  }

  -- A loose item gets another state.
  pub write-IsSound :
      (p : ℕ) (item item' : InventoryItem)
      → IsLoose s p item
      → item'.hash ≡ item.hash
      → IsSound (write p item' s) × IsLoose (write p item' s) p item'
  write-IsSound p item item' loose same = (
    record {
      table =
          write-IsEntered s.cells s.next_address s.inventory_hash sound.table p item item'
            loose.is_there same;
      requested_lists = λ q.
          keep (is_stub q) s.cells p (some item') _ (loose.not_requested q)
            (sound.requested_lists q);
      accepted_list =
          keep is_accepted s.cells p (some item') _ loose.not_accepted sound.accepted_list;
      rejected_list =
          keep is_rejected s.cells p (some item') _ loose.not_rejected sound.rejected_list;
    },
    record {
      is_there = put_at_same p (some item') s.cells;
      not_requested = loose.not_requested;
      not_accepted = loose.not_accepted;
      not_rejected = loose.not_rejected;
    },
  )

  -- A loose item becomes the first of the list that belongs to its state.
  pub join_requested :
      (p : ℕ) (item : InventoryItem) (peer : ℕ)
      → IsLoose s p item
      → is_stub peer item.state ≡ true
      → IsSound (record s {
        requested_inventories =
            put_at peer (p ∷ s.requested_inventories peer) s.requested_inventories;
      })
  join_requested p item peer loose fits = record {
    table = sound.table;
    requested_lists =
        put_list s.cells peer _ s.requested_inventories
          (join (is_stub peer) s.cells p item _ loose.is_there fits (loose.not_requested peer)
            (sound.requested_lists peer))
          (λ q ne. sound.requested_lists q);
    accepted_list = sound.accepted_list;
    rejected_list = sound.rejected_list;
  }

  pub join_accepted :
      (p : ℕ) (item : InventoryItem)
      → IsLoose s p item
      → is_accepted item.state ≡ true
      → IsSound (record s { accepted_inventories = p ∷ s.accepted_inventories })
  join_accepted p item loose fits = record {
    table = sound.table;
    requested_lists = sound.requested_lists;
    accepted_list =
        join is_accepted s.cells p item _ loose.is_there fits loose.not_accepted
          sound.accepted_list;
    rejected_list = sound.rejected_list;
  }

  pub join_rejected :
      (p : ℕ) (item : InventoryItem)
      → IsLoose s p item
      → is_rejected item.state ≡ true
      → IsSound (record s { rejected_inventories = p ∷ s.rejected_inventories })
  join_rejected p item loose fits = record {
    table = sound.table;
    requested_lists = sound.requested_lists;
    accepted_list = sound.accepted_list;
    rejected_list =
        join is_rejected s.cells p item _ loose.is_there fits loose.not_rejected
          sound.rejected_list;
  }

  -- An item in one list is in no other.
  pub far_from :
      (test : InvState → Bool) (p : ℕ) (item : InventoryItem) (list : List ℕ)
      → s.cells p ≡ some item
      → test item.state ≡ false
      → IsList test s.cells list
      → All (λ a. a ≢ p) list
  far_from test p item list here off h =
      apart test s.cells p list (Holds-not test s.cells p item here off) h.0

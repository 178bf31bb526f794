-- ===== src/Network/Items/Finding.antt =====
-- What src/ntb-network.c finds under a hash in a sound inventory, and the operations that leave it sound.
use notbit.Common.{
  ℕ, ◌<◌, ◌≡◌, refl, ◌∙◌, ap, arith, Bytes, List, [], ◌∷◌, Bool-cases, inl, inr, ◌⊎◌, false, none,
  some, Option-cases, leb, Outcome, ok, ◌>>=◌,
}
use notbit.HashTable.{get}
use notbit.Network.Items.Objects.{broadcast_inv}
use notbit.Network.Items.Sound.{IsSound, IsLoose}
use notbit.Network.Items.{InventoryItem, Action, Inventories, deref, lookup, act}
use notbit.Network.{Peer, is_connected}

-- An operation ends without a fault in a sound state.
abbrev pub Ends : Outcome Inventories → Type 0
Ends r = (s : Inventories) × (r ≡ ok s) × IsSound s

pub ok-Ends : (s : Inventories) → IsSound s → Ends (ok s)
ok-Ends s sound = (s, refl, sound)

pub eq-Ends : {r r' : Outcome Inventories} → r ≡ r' → Ends r' → Ends r
eq-Ends e (s, f, sound) = (s, e ∙ f, sound)

pub then-Ends :
    (r : Outcome Inventories) (rest : Inventories → Outcome Inventories)
    → Ends r
    → ((s : Inventories) → IsSound s → Ends (rest s))
    → Ends (r >>= rest)
then-Ends r rest (s, e, sound) k = eq-Ends (ap (λ t. t >>= rest) e) (k s sound)

-- What a lookup finds in a sound state.
pub record Found (hash : Bytes) (s : Inventories) : Type 0 where
  pub address : ℕ
  pub item : InventoryItem
  pub lookup_is : lookup hash s ≡ ok (some (address, item))
  pub is_there : s.cells address ≡ some item
  pub hash_is : item.hash ≡ hash

pub deref_lem :
    (p : ℕ) (item : InventoryItem) (s : Inventories) → s.cells p ≡ some item → deref p s ≡ ok item
deref_lem p item s e = rw (e, deref) refl

-- Every item is found under its hash.
pub found_at :
    (s : Inventories) (sound : IsSound s) (p : ℕ) (item : InventoryItem)
    → s.cells p ≡ some item
    → lookup item.hash s ≡ ok (some (p, item))
unfolding lookup
found_at s sound p item here =
    rw (sound.table.entered p item here, lookup, deref_lem p item s here) refl

abbrev pub IsMissing : Bytes → Inventories → Type 0
IsMissing hash s = (get s.inventory_hash hash ≡ none) × (lookup hash s ≡ ok none)

pub lookup_iff : (hash : Bytes) (s : Inventories) → IsSound s → IsMissing hash s ⊎ Found hash s
unfolding lookup
lookup_iff hash s sound = elim (Option-cases (get s.inventory_hash hash)) [
  | inl e ↦ inl (e, rw (e, lookup) refl)
  | inr (v, e) ↦
      let has = sound.table.live hash v e in
      inr (record {
        address = v.pointer;
        item = has.item;
        lookup_is = rw (e, lookup, deref_lem v.pointer has.item s has.is_there) refl;
        is_there = has.is_there;
        hash_is = has.hash_is;
      })
]

pub act-IsSound : (action : Action) (s : Inventories) → IsSound s → IsSound (act action s)
act-IsSound action s sound = record {
  table = sound.table;
  requested_lists = sound.requested_lists;
  accepted_list = sound.accepted_list;
  rejected_list = sound.rejected_list;
}

-- What is done and what waits for its time have no part in it.
pub reports :
    (actions : List Action) (waiting : List Bytes) {s : Inventories}
    → IsSound s
    → IsSound (record s { actions = actions; delayed_broadcasts = waiting })
reports actions waiting sound = record {
  table = sound.table;
  requested_lists = sound.requested_lists;
  accepted_list = sound.accepted_list;
  rejected_list = sound.rejected_list;
}

pub broadcast_inv-IsSound :
    (peers : List Peer) (hash : Bytes) (s : Inventories)
    → IsSound s
    → IsSound (broadcast_inv peers hash s)
unfolding broadcast_inv
broadcast_inv-IsSound [] hash s sound = sound
broadcast_inv-IsSound (peer ∷ peers) hash s sound = elim (Bool-cases (is_connected peer.state)) [
  | inl e ↦
      rw e (broadcast_inv-IsSound peers hash _ (act-IsSound (Action.announce peer.id hash) s sound))
  | inr e ↦ rw e (broadcast_inv-IsSound peers hash s sound)
]

-- The number of rejected items has no part in it.
pub renumber :
    (n : ℕ) {s : Inventories} → IsSound s → IsSound (record s { n_rejected_inventories = n })
renumber n sound = record {
  table = sound.table;
  requested_lists = sound.requested_lists;
  accepted_list = sound.accepted_list;
  rejected_list = sound.rejected_list;
}

pub renumber-IsLoose :
    (n : ℕ) {s : Inventories} (p : ℕ) (item : InventoryItem)
    → IsLoose s p item
    → IsLoose (record s { n_rejected_inventories = n }) p item
renumber-IsLoose n p item loose = record {
  is_there = loose.is_there;
  not_requested = loose.not_requested;
  not_accepted = loose.not_accepted;
  not_rejected = loose.not_rejected;
}

pub lt→leb : (a b : ℕ) → a < b → leb b a ≡ false
lt→leb a b h = ground arith

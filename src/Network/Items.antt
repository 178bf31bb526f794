-- ===== src/Network/Items.antt =====
-- src/ntb-network.c: the inventory of a node, which is what it knows of the objects that peers have.
-- Each struct ntb_network_inventory is a cell of memory behind its address, the table of
-- src/ntb-hash-table.c has the addresses by the hashes, and the lists have them as well. A read of
-- memory that was released or never set is a fault. Addresses are not used again: what the table finds
-- behind one that was released is taken to have the hash that it had.
pub mod Objects
pub mod Collecting
pub mod Gathered
pub mod Collected
pub mod Entered
pub mod Judged
pub mod Finding
pub mod Keeps
pub mod Lists
pub mod Knowing
pub mod Again
pub mod Leaks
pub mod Sound
pub mod Taking
pub mod Steps
mod Tests
use notbit.Common.{
  ℕ, ◌+◌, ◌*◌, Bytes, List, [], ◌∷◌, ◌++◌, Bool, true, false, Option, none, some, ◌==◌,
  if◌then◌else◌, Outcome, ok, fail, fault, ◌>>=◌,
}
use notbit.Proto.Types.{InvType}
use notbit.Connection.{Blob}
use notbit.HashTable.{Value, Table, new, get, set_value, remove}

-- The state of an item with what only this state has: a stub the peer in whose list its link is and
-- the time of its request, a rejected one its time stamp, an accepted one its type, its time stamp and
-- its blob or a null pointer. The allocator leaves an item `unset`.
pub data InvState : Type 0 where
  unset : InvState
  stub : (peer last_request_time : ℕ) → InvState
  rejected : (timestamp : ℕ) → InvState
  accepted : InvType → (timestamp : ℕ) → Option Blob → InvState

-- struct ntb_network_inventory
pub record InventoryItem : Type 0 where
  pub hash : Bytes
  pub state : InvState

-- What the rest of the program is called for: the connection of a peer for a getdata, a blob or an inv,
-- the store to save or to delete an object, and the listeners of the signal for a new one.
pub data Action : Type 0 where
  ask : (peer : ℕ) (hash : Bytes) → Action
  give : (peer : ℕ) (hash : Bytes) → Option Blob → Action
  announce : (peer : ℕ) (hash : Bytes) → Action
  save : (hash : Bytes) → Blob → Action
  delete : (hash : Bytes) → Action
  new_object : Blob → Action

-- The members of struct ntb_network for the inventory, and requested_inventories of each peer.
pub record Inventories : Type 0 where
  pub cells : ℕ → Option InventoryItem
  pub next_address : ℕ
  pub inventory_hash : Table
  pub requested_inventories : ℕ → List ℕ
  pub accepted_inventories : List ℕ
  pub rejected_inventories : List ℕ
  pub n_rejected_inventories : ℕ
  pub delayed_broadcasts : List Bytes
  pub actions : List Action

unfoldable pub new_inventories : Inventories
unfolding new
new_inventories = record {
  cells = λ address. none;
  next_address = 0;
  inventory_hash = new;
  requested_inventories = λ peer. [];
  accepted_inventories = [];
  rejected_inventories = [];
  n_rejected_inventories = 0;
  delayed_broadcasts = [];
  actions = [];
}

-- The size of struct ntb_network_inventory and the offset of its hash where pointers have 8 bytes.
abbrev pub item_size : ℕ
item_size = 72

abbrev pub hash_offset : ℕ
hash_offset = 8

abbrev pub put_at {ℓ} : {A : Type ℓ} → ℕ → A → (ℕ → A) → ℕ → A
put_at address a cells other = if other == address then a else cells other

abbrev pub write : ℕ → InventoryItem → Inventories → Inventories
write address item s = record s { cells = put_at address (some item) s.cells }

-- `*inv` for a pointer `inv`.
abbrev pub deref : ℕ → Inventories → Outcome InventoryItem
deref address s = elim (s.cells address) [ none ↦ fault | some item ↦ ok item ]

-- ntb_hash_table_get, with what the result points at.
unfoldable pub lookup : Bytes → Inventories → Outcome (Option (ℕ × InventoryItem))
lookup hash s = elim (get s.inventory_hash hash) [
  | none ↦ ok none
  | some v ↦ deref v.pointer s >>= λ item. ok (some (v.pointer, item))
]

-- ntb_hash_table_set of an item whose hash is in place.
unfoldable pub enter : ℕ → Bytes → Inventories → Inventories
enter address hash s = record s {
  inventory_hash = (set_value s.inventory_hash (record { pointer = address; hash = hash })).1;
}

-- ntb_slice_alloc, memcpy of the hash, and ntb_hash_table_set.
unfoldable pub create : Bytes → InvState → Inventories → Inventories
create hash state s =
    let address = s.next_address in
    enter address hash (record (write address (record { hash = hash; state = state }) s) {
      next_address = address + item_size;
    })

-- ntb_list_remove, where the list is known.
abbrev pub delist : ℕ → List ℕ → List ℕ
delist address [] = []
delist address (a ∷ list) =
    let rest = delist address list in if a == address then rest else a ∷ rest

-- ntb_hash_table_remove with a pointer to an item.
unfoldable pub leave : ℕ → InventoryItem → Inventories → Inventories
leave address item s = record s {
  inventory_hash = (remove s.inventory_hash (record { pointer = address; hash = item.hash })).1;
}

-- free_inventory
abbrev pub free_inventory : ℕ → Inventories → Inventories
free_inventory address s = record s { cells = put_at address none s.cells }

abbrev pub act : Action → Inventories → Inventories
act action s = record s { actions = s.actions ++ action ∷ [] }

unfoldable pub request_inventory : (now peer : ℕ) → Bytes → Inventories → Inventories
request_inventory now peer hash s =
    let made = create hash (stub peer now) s in
    act (ask peer hash) (record made {
      requested_inventories =
          put_at peer (s.next_address ∷ s.requested_inventories peer) s.requested_inventories;
    })

-- One round of the loop of handle_inv, and the loop. `now` is the monotonic clock.
unfoldable pub handle_announced : (now peer : ℕ) → Bytes → Inventories → Outcome Inventories
handle_announced now peer hash s = lookup hash s >>= λ (found : Option (ℕ × InventoryItem)).
    elim found [ none ↦ ok (request_inventory now peer hash s) | some _ ↦ ok s ]

unfoldable pub handle_inv : (now peer : ℕ) → List Bytes → Inventories → Outcome Inventories
handle_inv now peer [] s = ok s
handle_inv now peer (hash ∷ hashes) s =
    handle_announced now peer hash s >>= λ s'. handle_inv now peer hashes s'

-- `inv->blob` of a stub was never set.
unfoldable pub answer : ℕ → InventoryItem → Inventories → Outcome Inventories
answer peer item s = elim item.state [
  | unset ↦ fault
  | stub _ _ ↦ fault
  | rejected _ ↦ ok s
  | accepted _ _ blob ↦ ok (act (give peer item.hash blob) s)
]

unfoldable pub handle_getdata : ℕ → List Bytes → Inventories → Outcome Inventories
handle_getdata peer [] s = ok s
handle_getdata peer (hash ∷ hashes) s = lookup hash s >>= λ (found : Option (ℕ × InventoryItem)).
    elim found [
      | none ↦ handle_getdata peer hashes s
      | some (_, item) ↦ answer peer item s >>= λ s'. handle_getdata peer hashes s'
    ]

-- enum ntb_network_object_location, with the blob that is handed out.
pub data Location : Type 0 where
  nowhere : Location
  memory : Blob → Location
  on_disk : Location

abbrev pub locate : InvState → Location
locate (accepted _ _ none) = on_disk
locate (accepted _ _ (some blob)) = memory blob
locate _ = nowhere

unfoldable pub get_object : Bytes → Inventories → Outcome Location
get_object hash s = lookup hash s >>= λ (found : Option (ℕ × InventoryItem)). elim found [
  | none ↦ ok nowhere
  | some (_, item) ↦ ok (locate item.state)
]

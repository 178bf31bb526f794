-- ===== src/Network/Items/Objects.antt =====
-- src/ntb-network.c: objects that come in are judged, entered, kept and announced.
use notbit.Common.{
  ℕ, ◌+◌, ◌-◌, ◌*◌, Bytes, List, [], ◌∷◌, length, drop, Bool, false, ◌==◌, leb, if◌then◌else◌,
  Option, none, some, Outcome, ok, fail, fault, ◌>>=◌,
}
use notbit.Address.{Digests, double_hash}
use notbit.Connection.{Blob}
use notbit.HashTable.{remove}
use notbit.Network.Items.{
  unset, stub, rejected, accepted, InventoryItem, announce, save, new_object, Inventories,
  hash_offset, put_at, write, deref, lookup, create, delist, free_inventory, act,
}
use notbit.Network.Judging.{should_reject}
use notbit.Network.{Peer, is_connected}
use notbit.Proto.Read.{get_command}
use notbit.Proto.Types.{InvType, uint64, timestamp}

-- NTB_NETWORK_MAX_REJECTED_INVENTORIES and NTB_NETWORK_INV_CACHE_AGE
abbrev pub max_rejected_inventories : ℕ
max_rejected_inventories = 16384

abbrev pub inv_cache_age : ℕ
inv_cache_age = 10 * 60

-- enum ntb_network_add_object_flags
pub record Flags : Type 0 where
  pub skip_validation : Bool
  pub delay : Bool

unfoldable pub broadcast_inv : List Peer → Bytes → Inventories → Inventories
broadcast_inv [] hash s = s
broadcast_inv (peer ∷ peers) hash s =
    broadcast_inv peers hash (if is_connected peer.state then act (announce peer.id hash) s else s)

-- The timer of 1 to 3 seconds is set, which calls broadcast_delayed_inv_cb.
unfoldable pub broadcast_delayed_inv : Bytes → Inventories → Inventories
broadcast_delayed_inv hash s = record s { delayed_broadcasts = hash ∷ s.delayed_broadcasts }

-- The timer of the one behind `i` others of the delayed broadcasts.
abbrev pub remove_at {ℓ} : {A : Type ℓ} → ℕ → List A → Option (A × List A)
remove_at i [] = none
remove_at i (x ∷ xs) =
    let later = remove_at (i - 1) xs in
    if i == 0
    then some (x, xs)
    else elim later [ none ↦ none | some (y, rest) ↦ some (y, x ∷ rest) ]

unfoldable pub broadcast_delayed_inv_cb : List Peer → ℕ → Inventories → Outcome Inventories
broadcast_delayed_inv_cb peers i s = elim (remove_at i s.delayed_broadcasts) [
  | none ↦ fault
  | some (hash, rest) ↦ ok (broadcast_inv peers hash (record s { delayed_broadcasts = rest }))
]

-- The last node of a list, which is `prev` of its head; without nodes that is the head itself.
abbrev pub last : List ℕ → Outcome ℕ
last [] = fault
last (a ∷ []) = ok a
last (a ∷ (b ∷ list)) = last (b ∷ list)

-- ntb_hash_table_remove gets the pointer `old_inv->hash` and reads the bytes `hash_offset` behind it.
unfoldable pub drop_oldest : Inventories → Outcome Inventories
drop_oldest s = last s.rejected_inventories >>= λ old. deref old s >>= λ item. ok (
    free_inventory old (record s {
      rejected_inventories = delist old s.rejected_inventories;
      inventory_hash =
          (remove s.inventory_hash
            (record { pointer = old + hash_offset; hash = drop hash_offset item.hash })).1;
    }))

-- The place for one more rejected item is made.
unfoldable pub make_room : Inventories → Outcome Inventories
unfolding drop_oldest
make_room s =
    if leb max_rejected_inventories s.n_rejected_inventories
    then drop_oldest s
    else ok (record s { n_rejected_inventories = s.n_rejected_inventories + 1 })

unfoldable pub reject_inventory : ℕ → Bytes → (created : ℕ) → Inventories → Outcome Inventories
reject_inventory address hash created s =
    make_room (write address (record { hash = hash; state = rejected created }) s) >>= λ s'.
    ok (record s' { rejected_inventories = address ∷ s'.rejected_inventories })

-- The blob of an object that is not quite new is not kept in memory.
abbrev pub cached : (now created : ℕ) → Blob → Option Blob
cached now created blob = if leb (created + inv_cache_age) now then none else some blob

unfoldable pub accept_inventory :
    (now address : ℕ)
    → Bytes
    → InvType
    → (created : ℕ) → Blob
    → Bool
    → List Peer
    → Inventories
    → Inventories
accept_inventory now address hash type created blob delay peers s =
    let saved = act (save hash blob) s in
    let kept =
      record (write address
        (record { hash = hash; state = accepted type created (cached now created blob) }) saved) {
          accepted_inventories = address ∷ s.accepted_inventories;
        } in
    act (new_object blob)
      (if delay then broadcast_delayed_inv hash kept else broadcast_inv peers hash kept)

-- What add_object does with an item that has no state but `unset` and is in no list.
unfoldable pub settle :
    Digests
    → (now address : ℕ) → Bytes
    → InvType
    → (created : ℕ) → Blob
    → Flags
    → List Peer
    → Inventories
    → Outcome Inventories
settle h now address hash type created blob flags peers s =
    (if flags.skip_validation
      then ok false
      else should_reject h.sha512 now created type blob.contents)
    >>= λ bad.
        if bad
        then reject_inventory address hash created s
        else ok (accept_inventory now address hash type created blob flags.delay peers s)

abbrev pub take_stub : (peer address : ℕ) → Inventories → Inventories
take_stub peer address s = record s {
  requested_inventories =
      put_at peer (delist address (s.requested_inventories peer)) s.requested_inventories;
}

-- Where add_object puts an object: in a new item or in the stub that its hash has.
unfoldable pub place_object :
    Digests
    → (now : ℕ) → Bytes
    → InvType
    → (created : ℕ) → Blob
    → Flags
    → List Peer
    → Inventories
    → Outcome Inventories
place_object h now hash type created blob flags peers s =
    lookup hash s >>= λ (found : Option (ℕ × InventoryItem)). elim found [
      | none ↦ settle h now s.next_address hash type created blob flags peers (create hash unset s)
      | some (address, item) ↦ elim item.state [
        | unset ↦ ok s
        | stub peer _ ↦
            settle h now address hash type created blob flags peers (take_stub peer address s)
        | rejected _ ↦ ok s
        | accepted _ _ _ ↦ ok s
      ]
    ]

-- `now` is the wall clock. The type and the contents of a blob that is given are those of the object.
unfoldable pub add_object :
    Digests → (now : ℕ) → InvType → Bytes → Flags → List Peer → Inventories → Outcome Inventories
add_object h now type object_data flags peers s =
    let blob : Blob = record { type = type; contents = object_data } in
    elim (get_command (uint64 ∷ timestamp ∷ [])
      (record { mem = object_data; len = length object_data })) [
        | fault ↦ fault
        | fail ↦ ok s
        | ok ((_, (time, _)), _) ↦
            place_object h now (double_hash h object_data) type time blob flags peers s
      ]

unfoldable pub handle_object :
    Digests → (now : ℕ) → InvType → Bytes → List Peer → Inventories → Outcome Inventories
handle_object h now type object_data =
    add_object h now type object_data (record { skip_validation = false; delay = false })

-- ntb_network_add_blob and ntb_network_add_object_from_data
unfoldable pub add_blob :
    Digests → (now : ℕ) → Blob → Flags → List Peer → Inventories → Outcome Inventories
add_blob h now blob = add_object h now blob.type blob.contents

-- store_for_each_blob_cb
unfoldable pub store_for_each_blob_cb :
    InvType → Bytes → (created : ℕ) → Inventories → Outcome Inventories
store_for_each_blob_cb type hash created s =
    lookup hash s >>= λ (found : Option (ℕ × InventoryItem)). elim found [
      | none ↦
          let made = create hash (accepted type created none) s in
          ok (record made { accepted_inventories = s.next_address ∷ s.accepted_inventories })
      | some _ ↦ ok s
    ]

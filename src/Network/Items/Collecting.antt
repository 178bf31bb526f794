-- ===== src/Network/Items/Collecting.antt =====
-- src/ntb-network.c: items that are too old are given up, and those of a peer that goes.
use notbit.Common.{
  ℕ, ◌+◌, ◌-◌, ◌*◌, ◌^◌, ◌%◌, List, [], ◌∷◌, Bool, ◌||◌, ◌&&◌, not, leb, if◌then◌else◌, Option,
  none, Outcome, ok, fault, ◌>>=◌,
}
use notbit.Connection.{Blob}
use notbit.Network.Items.Objects.{inv_cache_age, take_stub}
use notbit.Network.Items.Lists.{is_rejected}
use notbit.Network.Items.{
  InvState, unset, stub, rejected, accepted, InventoryItem, delete, Inventories, put_at, write,
  deref, leave, delist, free_inventory, act,
}
use notbit.Network.Judging.{inv_future_age}
use notbit.Network.{Peer}
use notbit.Proto.Types.{InvType, msg, get_max_age_for_type}

-- NTB_NETWORK_MAX_STUB_INVENTORY_AGE and NTB_PROTO_EXTRA_AGE
abbrev pub max_stub_inventory_age : ℕ
max_stub_inventory_age = 5 * 60

abbrev pub extra_age : ℕ
extra_age = 6 * 60 * 60

-- The first member of both structures of the union: `last_request_time` or `timestamp`.
abbrev pub time_of : InvState → Outcome ℕ
time_of unset = fault
time_of (stub _ time) = ok time
time_of (rejected time) = ok time
time_of (accepted _ time _) = ok time

-- The loop of remove_peer over the stubs of the peer, whose list goes with it.
unfoldable pub forget_all : List ℕ → Inventories → Outcome Inventories
forget_all [] s = ok s
forget_all (address ∷ list) s =
    deref address s >>= λ item. forget_all list (free_inventory address (leave address item s))

unfoldable pub forget_peer : ℕ → Inventories → Outcome Inventories
forget_peer peer s = forget_all (s.requested_inventories peer) s >>= λ s'.
    ok (record s' { requested_inventories = put_at peer [] s'.requested_inventories })

-- One round of gc_requested_inventories for a peer, and its loop, which has read the next node before.
unfoldable pub gc_requested_item : (now peer address : ℕ) → Inventories → Outcome Inventories
gc_requested_item now peer address s = deref address s >>= λ item. time_of item.state >>= λ time.
    ok (
      if leb (max_stub_inventory_age * 1000000) ((now + 2 ^ 64 - time) % 2 ^ 64)
      then free_inventory address (leave address item (take_stub peer address s))
      else s)

unfoldable pub gc_requested_inventories :
    (now peer : ℕ) → List ℕ → Inventories → Outcome Inventories
gc_requested_inventories now peer [] s = ok s
gc_requested_inventories now peer (address ∷ list) s =
    gc_requested_item now peer address s >>= λ s'. gc_requested_inventories now peer list s'

-- `age <= -NTB_NETWORK_INV_FUTURE_AGE || age >= ...`
unfoldable pub is_outdated : (now timestamp : ℕ) → InvType → Bool
is_outdated now timestamp type =
    leb (now + inv_future_age) timestamp
    || leb (timestamp + (get_max_age_for_type type + extra_age)) now

-- One round of gc_inventories for an item of each of the two lists.
unfoldable pub gc_accepted :
    (now address : ℕ)
    → InventoryItem
    → InvType
    → (timestamp : ℕ) → Option Blob
    → Inventories
    → Inventories
gc_accepted now address item type timestamp blob s =
    if is_outdated now timestamp type
    then free_inventory address (
        leave address item (record (act (delete item.hash) s) {
          accepted_inventories = delist address s.accepted_inventories;
        }))
    else if leb (timestamp + inv_cache_age) now
    then write address (record item { state = accepted type timestamp none }) s
    else s

-- The blob of a rejected item was never set: `unset_blob` tells for an address whether the pointer that
-- is read there is another one than NULL. If the item were not rejected, that pointer would be used.
unfoldable pub gc_rejected :
    (unset_blob : ℕ → Bool) (now address : ℕ)
    → InventoryItem
    → (timestamp : ℕ) → Inventories
    → Outcome Inventories
gc_rejected unset_blob now address item timestamp s =
    if is_outdated now timestamp msg
    then ok (
        free_inventory address (
          leave address item (record s {
            n_rejected_inventories = s.n_rejected_inventories - 1;
            rejected_inventories = delist address s.rejected_inventories;
          })))
    else if leb (timestamp + inv_cache_age) now
        && (unset_blob address && not (is_rejected item.state))
    then fault
    else ok s

-- Neither list has items of the other states.
unfoldable pub gc_item :
    (unset_blob : ℕ → Bool) (now address : ℕ) → Inventories → Outcome Inventories
gc_item unset_blob now address s = deref address s >>= λ item. elim item.state [
  | unset ↦ fault
  | stub _ _ ↦ fault
  | rejected timestamp ↦ gc_rejected unset_blob now address item timestamp s
  | accepted type timestamp blob ↦ ok (gc_accepted now address item type timestamp blob s)
]

unfoldable pub gc_inventories :
    (unset_blob : ℕ → Bool) (now : ℕ) → List ℕ → Inventories → Outcome Inventories
gc_inventories unset_blob now [] s = ok s
gc_inventories unset_blob now (address ∷ list) s =
    gc_item unset_blob now address s >>= λ s'. gc_inventories unset_blob now list s'

unfoldable pub gc_peers : (now : ℕ) → List Peer → Inventories → Outcome Inventories
gc_peers now [] s = ok s
gc_peers now (peer ∷ peers) s =
    gc_requested_inventories now peer.id (s.requested_inventories peer.id) s >>= λ s'.
    gc_peers now peers s'

-- gc_timeout_cb, but for the addresses. `now` is the wall clock, `clock` the monotonic one.
unfoldable pub gc_timeout_cb :
    (unset_blob : ℕ → Bool) (now clock : ℕ) → List Peer → Inventories → Outcome Inventories
gc_timeout_cb unset_blob now clock peers s = gc_peers clock peers s >>= λ s'.
    gc_inventories unset_blob now s'.accepted_inventories s' >>= λ s''.
    gc_inventories unset_blob now s''.rejected_inventories s''

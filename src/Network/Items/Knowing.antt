-- ===== src/Network/Items/Knowing.antt =====
-- What the inventory of src/ntb-network.c knows of an object that it was given.
use mathlib.Core.Path.{subst}
use notbit.Address.{Digests, double_hash}
use notbit.Common.{
  ℕ, ◌+◌, ◌<◌, ◌≡◌, refl, sym, ◌∙◌, ap, Bytes, List, [], ◌∷◌, Bool, Bool-cases, true, false, inl,
  inr, ◌⊎◌, some, leb, if◌then◌else◌, Outcome, ok, ok-injective,
}
use notbit.Connection.{Blob}
use notbit.Network.Items.Entered.{put_at_same}
use notbit.Network.Items.Judged.{whole}
use notbit.Network.Items.Keeps.{add_object-Ends}
use notbit.Network.Items.Finding.{found_at, IsMissing, lt→leb}
use notbit.Network.Items.Objects.{
  Flags, broadcast_inv, broadcast_delayed_inv, make_room, reject_inventory, cached,
  accept_inventory, inv_cache_age, settle, take_stub, place_object, add_object, handle_object,
  max_rejected_inventories,
}
use notbit.Network.Items.Sound.{IsSound}
use notbit.Network.Items.{
  InvState, unset, stub, rejected, accepted, InventoryItem, Action, Inventories, put_at, write,
  lookup, enter, create, act, nowhere, memory, on_disk, locate, get_object,
}
use notbit.Network.Judging.{should_reject}
use notbit.Network.{Peer, is_connected}
use notbit.Proto.Read.{get_command, Cursor}
use notbit.Proto.Types.{InvType, uint64, timestamp}

broadcast_inv-cells :
    (peers : List Peer) (hash : Bytes) (s : Inventories)
    → (broadcast_inv peers hash s).cells ≡ s.cells
unfolding broadcast_inv
broadcast_inv-cells [] hash s = refl
broadcast_inv-cells (peer ∷ peers) hash s = elim (Bool-cases (is_connected peer.state)) [
  | inl e ↦
      rw (e, broadcast_inv) (broadcast_inv-cells peers hash (act (Action.announce peer.id hash) s))
  | inr e ↦ rw (e, broadcast_inv) (broadcast_inv-cells peers hash s)
]

accept_inventory-cells :
    (now address : ℕ) (hash : Bytes) (type : InvType) (created : ℕ) (blob : Blob) (delay : Bool)
    (peers : List Peer) (s : Inventories)
    → (accept_inventory now address hash type created blob delay peers s).cells
      ≡ put_at address
          (some (record { hash = hash; state = accepted type created (cached now created blob) }))
          s.cells
unfolding accept_inventory broadcast_delayed_inv
accept_inventory-cells now address hash type created blob true peers s = refl
accept_inventory-cells now address hash type created blob false peers s =
    broadcast_inv-cells peers hash _

-- How an object stands after it was given: rejected, or accepted with its blob unless it is old.
abbrev pub verdict : Bool → (now : ℕ) → InvType → (created : ℕ) → Blob → InvState
verdict true now type created blob = rejected created
verdict false now type created blob = accepted type created (cached now created blob)

abbrev pub judge : Digests → (now : ℕ) → InvType → (created : ℕ) → Bytes → Bool → Outcome Bool
judge h now type created bytes skip =
    if skip then ok false else should_reject h.sha512 now created type bytes

settle_lem :
    (h : Digests) (now address : ℕ) (hash : Bytes) (type : InvType) (created : ℕ) (blob : Blob)
    (flags : Flags) (peers : List Peer) (s : Inventories) (bad : Bool)
    → s.n_rejected_inventories < max_rejected_inventories
    → judge h now type created blob.contents flags.skip_validation ≡ ok bad
    → (t : Inventories) × (settle h now address hash type created blob flags peers s ≡ ok t)
      × (t.cells address ≡ some (record { hash = hash; state = verdict bad now type created blob }))
unfolding settle reject_inventory make_room
settle_lem h now address hash type created blob flags peers s true room e = (
  record (write address (record { hash = hash; state = rejected created }) s) {
    n_rejected_inventories = s.n_rejected_inventories + 1;
    rejected_inventories = address ∷ s.rejected_inventories;
  },
  rw (e, lt→leb s.n_rejected_inventories max_rejected_inventories room) refl,
  put_at_same address _ s.cells,
)
settle_lem h now address hash type created blob flags peers s false room e = (
  accept_inventory now address hash type created blob flags.delay peers s,
  rw e refl,
  ap (λ c. c address)
        (accept_inventory-cells now address hash type created blob flags.delay peers s)
      ∙ put_at_same address _ s.cells,
)

-- The hash is new or that of a stub.
abbrev pub IsAwaited : Bytes → Inventories → Type 0
IsAwaited hash s =
    IsMissing hash s
    ⊎ ((p r time : ℕ) × (lookup hash s
          ≡ ok (some (p, record { hash = hash; state = stub r time }))))

pub place_object_lem :
    (h : Digests) (now : ℕ) (hash : Bytes) (type : InvType) (created : ℕ) (blob : Blob)
    (flags : Flags) (peers : List Peer) (s : Inventories) (bad : Bool)
    → s.n_rejected_inventories < max_rejected_inventories
    → judge h now type created blob.contents flags.skip_validation ≡ ok bad
    → IsAwaited hash s
    → (t : Inventories) × (p : ℕ) × (place_object h now hash type created blob flags peers s ≡ ok t)
      × (t.cells p ≡ some (record { hash = hash; state = verdict bad now type created blob }))
unfolding place_object
place_object_lem h now hash type created blob flags peers s bad room e (inl missing) =
    let (t, f, there) =
      settle_lem h now s.next_address hash type created blob flags peers (create hash unset s) bad
        (unfold create enter in room) e in
    (t, s.next_address, rw (missing.1) f, there)
place_object_lem h now hash type created blob flags peers s bad room e (inr (p, r, time, found)) =
    let (t, f, there) =
      settle_lem h now p hash type created blob flags peers (take_stub r p s) bad room e in
    (t, p, rw found f, there)

where_is :
    (bad : Bool) (now : ℕ) (type : InvType) (created : ℕ) (blob : Blob)
    → locate (verdict bad now type created blob) ≡ (
        if bad then nowhere else if leb (created + inv_cache_age) now then on_disk else memory blob)
where_is true now type created blob = refl
where_is false now type created blob = elim (Bool-cases (leb (created + inv_cache_age) now)) [
  | inl e ↦ rw e refl
  | inr e ↦ rw e refl
]

get_object_at :
    (s : Inventories) (sound : IsSound s) (p : ℕ) (item : InventoryItem)
    → s.cells p ≡ some item
    → get_object item.hash s ≡ ok (locate item.state)
unfolding get_object
get_object_at s sound p item here = rw (found_at s sound p item here, get_object) refl

-- After an object with a whole header has come from a peer, whose hash the node did not know or has asked
-- for, it is nowhere if it is rejected; otherwise it is in memory if it is younger than 10 minutes, and on
-- the disk if it is not. The inventory is sound and there are fewer than 16384 rejected items.
pub get_object-handle_object :
    (h : Digests) (now : ℕ) (type : InvType) (bytes : Bytes) (peers : List Peer) (s : Inventories)
    (nonce created : ℕ) (end : Cursor) (bad : Bool)
    → IsSound s
    → s.n_rejected_inventories < max_rejected_inventories
    → get_command (uint64 ∷ timestamp ∷ []) (whole bytes) ≡ ok ((nonce, (created, tt)), end)
    → IsAwaited (double_hash h bytes) s
    → should_reject h.sha512 now created type bytes ≡ ok bad
    → (t : Inventories) × (handle_object h now type bytes peers s ≡ ok t)
      × (get_object (double_hash h bytes) t
          ≡ ok (
              if bad
              then nowhere
              else if leb (created + inv_cache_age) now
              then on_disk
              else memory (record { type = type; contents = bytes })))
unfolding handle_object add_object
get_object-handle_object h now type bytes peers s nonce created end bad sound room header awaited
      judged =
    let flags : Flags = record { skip_validation = false; delay = false } in
    let blob : Blob = record { type = type; contents = bytes } in
    let hash = double_hash h bytes in
    let (t, p, e, there) =
      place_object_lem h now hash type created blob flags peers s bad room judged awaited in
    let (t', e', sound') = add_object-Ends h now type flags peers s sound room bytes in
    let placed : add_object h now type bytes flags peers s ≡ ok t = rw (add_object, header) e in
    let t_is : t' ≡ t = ok-injective (sym e' ∙ placed) in
    (
      t,
      placed,
      get_object_at t (subst IsSound t_is sound') p _ there
          ∙ ap ok (where_is bad now type created blob),
    )

-- An item that is no stub is left alone when its object comes.
pub place_known :
    (h : Digests) (now : ℕ) (hash : Bytes) (type : InvType) (created : ℕ) (blob : Blob)
    (flags : Flags) (peers : List Peer) (s : Inventories) (p : ℕ) (item : InventoryItem)
    (state : InvState)
    → lookup hash s ≡ ok (some (p, item))
    → item.state ≡ state
    → ((r time : ℕ) → ¬ (state ≡ stub r time))
    → place_object h now hash type created blob flags peers s ≡ ok s
unfolding place_object
place_known h now hash type created blob flags peers s p item unset e f ne = rw (e, f) refl
place_known h now hash type created blob flags peers s p item (rejected _) e f ne = rw (e, f) refl
place_known h now hash type created blob flags peers s p item (accepted _ _ _) e f ne =
    rw (e, f) refl
place_known h now hash type created blob flags peers s p item (stub r time) e f ne =
    absurd (ne r time refl)

-- ===== src/Network/Items/Keeps.antt =====
-- What peers and the store tell src/ntb-network.c is taken without a fault and keeps the inventory sound.
use notbit.Address.{Digests, double_hash}
use notbit.Common.{
  ℕ, ◌≤◌, ◌<◌, ◌≡◌, refl, ◌∙◌, ap, Bytes, List, [], ◌∷◌, length, Bool, Bool-cases, inl, inr, true,
  false, none, some, ==_refl, if◌then◌else◌, ok, Outcome-cases,
}
use notbit.Connection.{Blob}
use notbit.HashTable.{get}
use mathlib.Core.Path.{ap₂}
use notbit.Network.Items.Judged.{header-ne-fault, header_long, should_reject_some, whole}
use notbit.Network.Items.Objects.{
  Flags, broadcast_delayed_inv, make_room, reject_inventory, cached, accept_inventory, settle,
  place_object, add_object, store_for_each_blob_cb, max_rejected_inventories,
}
use notbit.Network.Items.Sound.{
  IsSound, IsLoose, create-IsSound, write-IsSound, join_requested, join_accepted, join_rejected,
}
use notbit.Network.Items.Taking.{take_stub-IsSound}
use notbit.Network.Items.{
  InvState, unset, stub, rejected, accepted, InventoryItem, Inventories, enter, create,
  request_inventory, handle_announced, handle_inv, write,
}
use notbit.Network.Judging.{should_reject}
use notbit.Network.{Peer}
use notbit.Proto.Read.{get_command}
use notbit.Proto.Types.{InvType, uint64, timestamp}
use notbit.Network.Items.Finding.{
  Ends, ok-Ends, then-Ends, Found, lookup_iff, act-IsSound, reports, broadcast_inv-IsSound,
  renumber, renumber-IsLoose, lt→leb,
}

pub request_inventory-IsSound :
    (now peer : ℕ) (hash : Bytes) (s : Inventories)
    → IsSound s
    → get s.inventory_hash hash ≡ none
    → IsSound (request_inventory now peer hash s)
unfolding request_inventory create enter
request_inventory-IsSound now peer hash s sound none_yet =
    let (made, loose) = create-IsSound s sound hash (stub peer now) none_yet in
    act-IsSound _ _ (join_requested _ made s.next_address _ peer loose (==_refl peer))

handle_announced-Ends :
    (now peer : ℕ) (hash : Bytes) (s : Inventories)
    → IsSound s
    → Ends (handle_announced now peer hash s)
unfolding handle_announced
handle_announced-Ends now peer hash s sound = elim (lookup_iff hash s sound) [
  | inl (e, f) ↦ rw f (ok-Ends _ (request_inventory-IsSound now peer hash s sound e))
  | inr found ↦ rw found.lookup_is (ok-Ends s sound)
]

pub handle_inv-Ends :
    (now peer : ℕ) (hashes : List Bytes) (s : Inventories)
    → IsSound s
    → Ends (handle_inv now peer hashes s)
unfolding handle_inv
handle_inv-Ends now peer [] s sound = ok-Ends s sound
handle_inv-Ends now peer (hash ∷ hashes) s sound =
    then-Ends (handle_announced now peer hash s) _ (handle_announced-Ends now peer hash s sound)
      λ s' sound'. handle_inv-Ends now peer hashes s' sound'

pub store_for_each_blob_cb-Ends :
    (type : InvType) (hash : Bytes) (created : ℕ) (s : Inventories)
    → IsSound s
    → Ends (store_for_each_blob_cb type hash created s)
unfolding store_for_each_blob_cb create enter
store_for_each_blob_cb-Ends type hash created s sound = elim (lookup_iff hash s sound) [
  | inl (e, f) ↦
      let (made, loose) = create-IsSound s sound hash (accepted type created none) e in
      rw f (ok-Ends _ (join_accepted _ made s.next_address _ loose refl))
  | inr found ↦ rw found.lookup_is (ok-Ends s sound)
]

-- A loose item is judged, with room for another rejected one.
module _ (h : Digests) (now address : ℕ) (hash : Bytes) (type : InvType) (created : ℕ) (blob : Blob)
    (peers : List Peer) (s : Inventories) (sound : IsSound s) (item : InventoryItem)
    (loose : IsLoose s address item) (same : hash ≡ item.hash) where
  reject_inventory-Ends :
      s.n_rejected_inventories < max_rejected_inventories
      → Ends (reject_inventory address hash created s)
  unfolding reject_inventory make_room
  reject_inventory-Ends room =
      let (written, loose') =
        write-IsSound s sound address item (record { hash = hash; state = rejected created }) loose
          same in
      rw (lt→leb s.n_rejected_inventories max_rejected_inventories room) (
        ok-Ends _
          (join_rejected _ (renumber _ written) address _ (renumber-IsLoose _ _ _ loose') refl))

  kept :
      IsSound
        (record (write address
          (record { hash = hash; state = accepted type created (cached now created blob) })
          s) { accepted_inventories = address ∷ s.accepted_inventories })
  kept =
      let state = accepted type created (cached now created blob) in
      let (written, loose') =
        write-IsSound s sound address item (record { hash = hash; state = state }) loose same in
      join_accepted _ written address _ loose' refl

  accept_inventory-IsSound :
      (delay : Bool) → IsSound (accept_inventory now address hash type created blob delay peers s)
  unfolding accept_inventory broadcast_delayed_inv
  accept_inventory-IsSound true = act-IsSound _ _ (reports _ (hash ∷ s.delayed_broadcasts) kept)
  accept_inventory-IsSound false =
      act-IsSound _ _ (broadcast_inv-IsSound peers hash _ (reports _ s.delayed_broadcasts kept))

  settle-Ends :
      (flags : Flags)
      → s.n_rejected_inventories < max_rejected_inventories
      → 8 ≤ length blob.contents
      → Ends (settle h now address hash type created blob flags peers s)
  unfolding settle
  settle-Ends flags room long =
      let verdict =
        if flags.skip_validation
        then ok false
        else should_reject h.sha512 now created type blob.contents in
      let judged : (bad : Bool) × (verdict ≡ ok bad) = elim (Bool-cases flags.skip_validation) [
        | inl e ↦ (false, rw e refl)
        | inr e ↦
            let (bad, f) = should_reject_some h now created type blob.contents long in (bad, rw e f)
      ] in
      elim (Bool-cases judged.0) [
        | inl b ↦ rw (judged.1, b) (reject_inventory-Ends room)
        | inr b ↦ rw (judged.1, b) (ok-Ends _ (accept_inventory-IsSound flags.delay))
      ]

pub same_item : (a b : InventoryItem) → a.hash ≡ b.hash → a.state ≡ b.state → a ≡ b
same_item a b e f = ap₂ (λ h st. record { hash = h; state = st }) e f

-- An object is taken, whatever its bytes, its flags and the peers, with room for a rejected one.
module _ (h : Digests) (now : ℕ) (type : InvType) (flags : Flags) (peers : List Peer)
    (s : Inventories) (sound : IsSound s)
    (room : s.n_rejected_inventories < max_rejected_inventories) where
  placed :
      (hash : Bytes) (created : ℕ) (blob : Blob)
      → 8 ≤ length blob.contents
      → (found : Found hash s) (state : InvState) → found.item.state ≡ state
      → Ends (place_object h now hash type created blob flags peers s)
  unfolding place_object
  placed hash created blob long found unset e = rw (found.lookup_is, e) (ok-Ends s sound)
  placed hash created blob long found (rejected _) e = rw (found.lookup_is, e) (ok-Ends s sound)
  placed hash created blob long found (accepted _ _ _) e = rw (found.lookup_is, e) (ok-Ends s sound)
  placed hash created blob long found (stub peer time) e =
      let item : InventoryItem = record { hash = hash; state = stub peer time } in
      let item_is : found.item ≡ item = same_item found.item item found.hash_is e in
      let (taken, loose) =
        take_stub-IsSound s sound peer found.address time hash (found.is_there ∙ ap some item_is) in
      rw (found.lookup_is, e)
        (settle-Ends h now found.address hash type created blob peers _ taken _ loose refl flags
          room long)

  place_object-Ends :
      (hash : Bytes) (created : ℕ) (blob : Blob)
      → 8 ≤ length blob.contents
      → Ends (place_object h now hash type created blob flags peers s)
  unfolding place_object create enter
  place_object-Ends hash created blob long = elim (lookup_iff hash s sound) [
    | inl (e, f) ↦
        let (made, loose) = create-IsSound s sound hash unset e in
        rw f (
          settle-Ends h now s.next_address hash type created blob peers _ made _ loose refl flags
            room long)
    | inr found ↦ placed hash created blob long found found.item.state refl
  ]

  pub add_object-Ends : (bytes : Bytes) → Ends (add_object h now type bytes flags peers s)
  unfolding add_object
  add_object-Ends bytes =
      let header = get_command (uint64 ∷ timestamp ∷ []) (whole bytes) in
      elim (Outcome-cases header) [
        | inl (((nonce, (created, last)), c), e) ↦
            rw (e, add_object)
              (place_object-Ends (double_hash h bytes) created _ (header_long bytes _ e))
        | inr (inl e) ↦ rw (e, add_object) (ok-Ends s sound)
        | inr (inr e) ↦ absurd (header-ne-fault bytes e)
      ]

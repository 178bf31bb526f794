-- ===== src/Network/Items/Leaks.antt =====
-- Two faults in src/ntb-network.c: the oldest rejected item is released and stays in the table, and a
-- stub is asked for its blob.
use notbit.Address.{Digests, double_hash}
use notbit.Common.{
  ℕ, ◌+◌, ◌≤◌, ◌≡◌, ◌≢◌, refl, ◌∙◌, ap, arith, Bytes, List, [], ◌∷◌, All, drop, true, none, some,
  leb, ok, fault,
}
use notbit.HashTable.Chains.{get-All}
use notbit.HashTable.Removing.{remove_apart}
use notbit.HashTable.{Value, Chain, get, remove}
use notbit.Network.Items.Entered.{put_at_same, put_at_other}
use notbit.Network.Items.Judged.{whole}
use notbit.Network.Items.Keeps.{request_inventory-IsSound}
use notbit.Network.Items.Finding.{deref_lem, found_at, IsMissing}
use notbit.Network.Items.Objects.{
  last, drop_oldest, make_room, reject_inventory, settle, place_object, add_object, handle_object,
  max_rejected_inventories,
}
use notbit.Network.Items.Sound.{IsSound, create-IsSound, write-IsSound}
use notbit.Network.Items.{
  unset, stub, rejected, InventoryItem, Inventories, hash_offset, put_at, write, deref, delist,
  free_inventory, lookup, enter, create, answer, request_inventory, handle_announced, handle_inv,
  handle_getdata,
}
use notbit.Network.Judging.{should_reject}
use notbit.Network.{Peer}
use notbit.Proto.Read.{get_command, Cursor}
use notbit.Proto.Types.{InvType, uint64, timestamp}

le→leb : (a b : ℕ) → a ≤ b → leb a b ≡ true
le→leb a b h = ground arith

deref-gone : (p : ℕ) (s : Inventories) → s.cells p ≡ none → deref p s ≡ fault
deref-gone p s e = rw (deref, e) refl

module _ (s : Inventories) (sound : IsSound s) where
  inside :
      (q : ℕ) (item : InventoryItem) (chain : Chain)
      → s.cells q ≡ some item
      → All (λ (e : Value). get s.inventory_hash e.hash ≡ some e) chain
      → All (λ (e : Value). e.pointer ≢ q + hash_offset) chain
  inside q item [] here h = tt
  inside q item (e ∷ chain) here h =
      let has = sound.table.live e.hash e h.0 in
      (
        λ same. omega (
          arith,
          same,
          sound.table.aligned q item here,
          sound.table.aligned e.pointer has.item has.is_there,
        ),
        inside q item chain here h.1,
      )

  -- ntb_hash_table_remove with a pointer into an item does nothing.
  remove_inside :
      (q : ℕ) (item : InventoryItem) (hash : Bytes)
      → s.cells q ≡ some item
      → (remove s.inventory_hash (record { pointer = q + hash_offset; hash = hash })).1
        ≡ s.inventory_hash
  remove_inside q item hash here =
      remove_apart s.inventory_hash (record { pointer = q + hash_offset; hash = hash })
        (inside q item _ here (get-All s.inventory_hash hash sound.table.valid))

  pub drop_oldest_lem :
      (old : ℕ) (item : InventoryItem)
      → last s.rejected_inventories ≡ ok old
      → s.cells old ≡ some item
      → (s' : Inventories) × (drop_oldest s ≡ ok s')
        × (get s'.inventory_hash item.hash ≡ some (record { pointer = old; hash = item.hash }))
        × (s'.cells old ≡ none)
  unfolding drop_oldest
  drop_oldest_lem old item e here = (
    free_inventory old (record s {
      rejected_inventories = delist old s.rejected_inventories;
      inventory_hash =
          (remove s.inventory_hash
            (record { pointer = old + hash_offset; hash = drop hash_offset item.hash })).1;
    }),
    rw (e, deref_lem old item s here) refl,
    ap (λ t. get t item.hash) (remove_inside old item _ here) ∙ sound.table.entered old item here,
    put_at_same old none s.cells,
  )

lookup_gone :
    (s : Inventories) (hash : Bytes) (v : Value)
    → get s.inventory_hash hash ≡ some v
    → s.cells v.pointer ≡ none
    → lookup hash s ≡ fault
unfolding lookup
lookup_gone s hash v e gone = rw (e, lookup, deref-gone v.pointer s gone) refl

reject_inventory-leaks :
    (address old : ℕ) (hash : Bytes) (created : ℕ) (item : InventoryItem) (s : Inventories)
    → let s' = write address (record { hash = hash; state = rejected created }) s in
      IsSound s'
      → max_rejected_inventories ≤ s.n_rejected_inventories
      → last s.rejected_inventories ≡ ok old
      → s'.cells old ≡ some item
      → (t : Inventories) × (reject_inventory address hash created s ≡ ok t)
        × (lookup item.hash t ≡ fault)
unfolding reject_inventory make_room
reject_inventory-leaks address old hash created item s sound full oldest here =
    let (t, e, kept, gone) = drop_oldest_lem _ sound old item oldest here in
    (
      record t { rejected_inventories = address ∷ t.rejected_inventories },
      rw (le→leb max_rejected_inventories s.n_rejected_inventories full, e) refl,
      lookup_gone _ item.hash (record { pointer = old; hash = item.hash }) kept gone,
    )

-- If the inventory is sound and counts 16384 rejected items or more, the last of their list being at `old`: an
-- object whose nonce and time can be read, whose hash has no item, not even a stub, and that is rejected, makes
-- that oldest item a pointer in the table to memory that was released, and the next lookup of its hash
-- reads that memory.
pub handle_object-leaks :
    (h : Digests) (now : ℕ) (type : InvType) (bytes : Bytes) (peers : List Peer) (s : Inventories)
    (created old : ℕ) (item : InventoryItem) (nonce : ℕ) (end : Cursor)
    → IsSound s
    → get_command (uint64 ∷ timestamp ∷ []) (whole bytes) ≡ ok ((nonce, (created, tt)), end)
    → should_reject h.sha512 now created type bytes ≡ ok true
    → IsMissing (double_hash h bytes) s
    → max_rejected_inventories ≤ s.n_rejected_inventories
    → last s.rejected_inventories ≡ ok old
    → s.cells old ≡ some item
    → (s' : Inventories) × (handle_object h now type bytes peers s ≡ ok s')
      × (lookup item.hash s' ≡ fault)
unfolding handle_object add_object place_object settle create enter
handle_object-leaks h now type bytes peers s created old item nonce end sound header bad missing
      full oldest here =
    let hash = double_hash h bytes in
    let p = s.next_address in
    let (made, loose) = create-IsSound s sound hash unset missing.0 in
    let new : InventoryItem = record { hash = hash; state = rejected created } in
    let (written, _) = write-IsSound _ made p _ new loose refl in
    let apart : old ≢ p = λ same. cc (sound.table.fresh p (omega arith), here, same) in
    let blank : InventoryItem = record { hash = hash; state = unset } in
    let there : put_at p (some new) (put_at p (some blank) s.cells) old ≡ some item =
      put_at_other p old (some new) (put_at p (some blank) s.cells) apart
      ∙ put_at_other p old (some blank) s.cells apart
      ∙ here in
    let (t, e, gone) = reject_inventory-leaks p old hash created item _ written full oldest there in
    (t, rw (add_object, header, missing.1, bad) e, gone)

-- A peer that announces a hash that the node does not know and asks for it before the object came makes
-- handle_getdata read a member of the stub that was never set and use it as a blob. The inventory is sound.
pub handle_getdata-stub :
    (now peer : ℕ) (hash : Bytes) (s : Inventories)
    → IsSound s
    → IsMissing hash s
    → (s' : Inventories) × (handle_inv now peer (hash ∷ []) s ≡ ok s')
      × (handle_getdata peer (hash ∷ []) s' ≡ fault)
unfolding handle_inv handle_announced handle_getdata answer
handle_getdata-stub now peer hash s sound missing =
    let s' = request_inventory now peer hash s in
    let item : InventoryItem = record { hash = hash; state = stub peer now } in
    let sound' = request_inventory-IsSound now peer hash s sound missing.0 in
    let here : s'.cells s.next_address ≡ some item =
      unfold request_inventory create enter in put_at_same s.next_address (some item) s.cells in
    let found = found_at s' sound' s.next_address item here in
    (s', rw missing.1 refl, rw found refl)

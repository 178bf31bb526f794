-- ===== src/Network/Items/Collected.antt =====
-- The collection of old items of src/ntb-network.c ends without a fault and keeps the inventory sound,
-- and so does the end of a peer.
use notbit.Common.{
  ℕ, ◌≡◌, ◌≢◌, refl, sym, ◌∙◌, ap, arith, List, [], ◌∷◌, Bool, Bool-cases, inl, inr, true, ◌||◌,
  ◌==◌, ==_iff, ==_ne, ◌⊎◌, none, some, ok, ◌>>=◌,
}
use notbit.Network.Items.Collecting.{
  forget_all, forget_peer, gc_requested_item, gc_requested_inventories, gc_item, gc_inventories,
  gc_peers, gc_timeout_cb,
}
use notbit.Network.Items.Finding.{Ends, ok-Ends, eq-Ends, then-Ends, deref_lem}
use notbit.Network.Items.Lists.{is_stub, is_accepted, is_rejected, IsList, write-All}
use notbit.Network.Items.Sound.{IsSound, IsLoose, put_list, free-IsSound, far_from}
use notbit.Network.Items.{
  InvState, unset, stub, rejected, accepted, InventoryItem, Inventories, put_at, leave,
  free_inventory,
}
use notbit.Network.{Peer}
use notbit.Network.Items.Gathered.{loop-Ends, requested-Round, item-Round}

gc_requested-Ends :
    (now peer : ℕ) (list : List ℕ) (s : Inventories)
    → IsSound s
    → IsList (is_stub peer) s.cells list
    → Ends (gc_requested_inventories now peer list s)
unfolding gc_requested_inventories
gc_requested-Ends now peer =
    loop-Ends (is_stub peer) (gc_requested_item now peer) (gc_requested_inventories now peer)
      (λ s. refl) (λ p list s. refl)
      λ p s sound h. requested-Round now peer p s h.item h.item.state sound h.is_there refl h.fits

gc_peers-Ends :
    (now : ℕ) (peers : List Peer) (s : Inventories) → IsSound s → Ends (gc_peers now peers s)
unfolding gc_peers
gc_peers-Ends now [] s sound = ok-Ends s sound
gc_peers-Ends now (peer ∷ peers) s sound =
    then-Ends _ _ (gc_requested-Ends now peer.id _ s sound (sound.requested_lists peer.id))
      (gc_peers-Ends now peers)

either : (a b : Bool) → (a ≡ true) ⊎ (b ≡ true) → (a || b) ≡ true
either a b h = ground arith

gc_inventories-Ends :
    (test : InvState → Bool) (unset_blob : ℕ → Bool) (now : ℕ)
    → ((state : InvState) → test state ≡ true → (is_accepted state || is_rejected state) ≡ true)
    → (list : List ℕ) (s : Inventories) → IsSound s
    → IsList test s.cells list
    → Ends (gc_inventories unset_blob now list s)
unfolding gc_inventories
gc_inventories-Ends test unset_blob now known =
    loop-Ends test (gc_item unset_blob now) (gc_inventories unset_blob now) (λ s. refl)
      (λ p list s. refl)
      λ p s sound h.
        item-Round unset_blob now p s h.item h.item.state sound h.is_there refl
          (known h.item.state h.fits)

-- The collection ends without a fault in a sound state.
pub gc_timeout_cb-Ends :
    (unset_blob : ℕ → Bool) (now clock : ℕ) (peers : List Peer) (s : Inventories)
    → IsSound s
    → Ends (gc_timeout_cb unset_blob now clock peers s)
unfolding gc_timeout_cb
gc_timeout_cb-Ends unset_blob now clock peers s sound =
    then-Ends (gc_peers clock peers s) _ (gc_peers-Ends clock peers s sound) λ a sound_a.
      then-Ends (gc_inventories unset_blob now a.accepted_inventories a) _
        (gc_inventories-Ends is_accepted unset_blob now (λ state h. either _ _ (inl h)) _ a sound_a
          sound_a.accepted_list)
        λ b sound_b.
          gc_inventories-Ends is_rejected unset_blob now (λ state h. either _ _ (inr h)) _ b sound_b
            sound_b.rejected_list

-- The list of a peer is given up.
abbrev drop_list : ℕ → Inventories → Inventories
drop_list peer s = record s { requested_inventories = put_at peer [] s.requested_inventories }

drop_list-IsSound : (peer : ℕ) (s : Inventories) → IsSound s → IsSound (drop_list peer s)
drop_list-IsSound peer s sound = record {
  table = sound.table;
  requested_lists =
      put_list s.cells peer [] s.requested_inventories (tt, tt) (λ q ne. sound.requested_lists q);
  accepted_list = sound.accepted_list;
  rejected_list = sound.rejected_list;
}

stub-IsLoose :
    (peer p : ℕ) (s : Inventories) (item : InventoryItem) (state : InvState)
    → IsSound (drop_list peer s)
    → s.cells p ≡ some item
    → item.state ≡ state
    → is_stub peer state ≡ true
    → IsLoose (drop_list peer s) p item
stub-IsLoose peer p s item (stub r time) sound here e fits =
    let r_is : r ≡ peer = (==_iff r peer).0 fits in
    record {
      is_there = here;
      not_requested = λ q. elim (Bool-cases (q == peer)) [
        | inl f ↦ rw f tt
        | inr f ↦
            let ne : r ≢ q = λ same. cc (f, (==_iff q peer).1 (sym same ∙ r_is)) in
            far_from _ sound (is_stub q) p item _ here (rw e (==_ne r q ne))
              (sound.requested_lists q)
      ];
      not_accepted = far_from _ sound is_accepted p item _ here (rw e refl) sound.accepted_list;
      not_rejected = far_from _ sound is_rejected p item _ here (rw e refl) sound.rejected_list;
    }
stub-IsLoose peer p s item unset sound here e fits = cc
stub-IsLoose peer p s item (rejected _) sound here e fits = cc
stub-IsLoose peer p s item (accepted _ _ _) sound here e fits = cc

forget_all-Ends :
    (peer : ℕ) (list : List ℕ) (s : Inventories)
    → IsSound (drop_list peer s)
    → IsList (is_stub peer) s.cells list
    → Ends (forget_all list s >>= λ s'. ok (drop_list peer s'))
unfolding forget_all leave
forget_all-Ends peer [] s sound h = ok-Ends _ sound
forget_all-Ends peer (p ∷ list) s sound h =
    let item = h.0.0.item in
    let loose = stub-IsLoose peer p s item item.state sound h.0.0.is_there refl h.0.0.fits in
    eq-Ends
      (ap
        (λ r.
          r
          >>= (λ i. forget_all list (free_inventory p (leave p i s)))
          >>= (λ s'. ok (drop_list peer s')))
        (deref_lem p item s h.0.0.is_there))
      (forget_all-Ends peer list _ (free-IsSound _ sound p item loose)
        (write-All (is_stub peer) s.cells p none list h.1.0 h.0.1, h.1.1))

-- A peer that goes takes its stubs along.
pub forget_peer-Ends : (peer : ℕ) (s : Inventories) → IsSound s → Ends (forget_peer peer s)
unfolding forget_peer
forget_peer-Ends peer s sound =
    forget_all-Ends peer (s.requested_inventories peer) s (drop_list-IsSound peer s sound)
      (sound.requested_lists peer)

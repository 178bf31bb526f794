-- ===== src/Network/Items/Taking.antt =====
-- The items that leave a list of the inventory of src/ntb-network.c.
use notbit.Common.{
  ℕ, ◌≡◌, ◌≢◌, refl, sym, Bytes, Bool-cases, inl, inr, true, some, ◌==◌, ==_iff, ==_ne,
}
use notbit.Network.Items.Lists.{is_stub, is_accepted, is_rejected, delist_apart, delist-IsList}
use notbit.Network.Items.Objects.{take_stub}
use notbit.Network.Items.{stub, InventoryItem, Inventories, delist}
use notbit.Network.Items.Sound.{IsSound, IsLoose, put_list, accepted_only, rejected_only, far_from}

module _ (s : Inventories) (sound : IsSound s) where
  -- A stub leaves its list.
  pub take_stub-IsSound :
      (peer p time : ℕ) (hash : Bytes)
      → s.cells p ≡ some (record { hash = hash; state = stub peer time })
      → IsSound (take_stub peer p s)
        × IsLoose (take_stub peer p s) p (record { hash = hash; state = stub peer time })
  take_stub-IsSound peer p time hash here =
      let item : InventoryItem = record { hash = hash; state = stub peer time } in
      (
        record {
          table = sound.table;
          requested_lists =
              put_list s.cells peer _ s.requested_inventories
                (delist-IsList (is_stub peer) s.cells p _ (sound.requested_lists peer))
                (λ q ne. sound.requested_lists q);
          accepted_list = sound.accepted_list;
          rejected_list = sound.rejected_list;
        },
        record {
          is_there = here;
          not_requested = λ q. elim (Bool-cases (q == peer)) [
            | inl e ↦ rw e (delist_apart p (s.requested_inventories peer))
            | inr e ↦
                let ne : peer ≢ q = λ same. cc (e, (==_iff q peer).1 (sym same)) in
                rw e (
                  far_from s sound (is_stub q) p item _ here (==_ne peer q ne)
                    (sound.requested_lists q))
          ];
          not_accepted = far_from s sound is_accepted p item _ here refl sound.accepted_list;
          not_rejected = far_from s sound is_rejected p item _ here refl sound.rejected_list;
        },
      )

  -- An accepted item and a rejected item leave their lists.
  pub take_accepted-IsSound :
      (p : ℕ) (item : InventoryItem)
      → s.cells p ≡ some item
      → is_accepted item.state ≡ true
      → let s' = record s { accepted_inventories = delist p s.accepted_inventories } in
        IsSound s' × IsLoose s' p item
  take_accepted-IsSound p item here fits =
      let others = accepted_only item.state fits in
      (
        record {
          table = sound.table;
          requested_lists = sound.requested_lists;
          accepted_list = delist-IsList is_accepted s.cells p _ sound.accepted_list;
          rejected_list = sound.rejected_list;
        },
        record {
          is_there = here;
          not_requested = λ q.
              far_from s sound (is_stub q) p item _ here (others.0 q) (sound.requested_lists q);
          not_accepted = delist_apart p s.accepted_inventories;
          not_rejected = far_from s sound is_rejected p item _ here others.1 sound.rejected_list;
        },
      )

  pub take_rejected-IsSound :
      (p : ℕ) (item : InventoryItem) (n : ℕ)
      → s.cells p ≡ some item
      → is_rejected item.state ≡ true
      → let s' = record s {
        n_rejected_inventories = n;
        rejected_inventories = delist p s.rejected_inventories;
      } in
        IsSound s' × IsLoose s' p item
  take_rejected-IsSound p item n here fits =
      let others = rejected_only item.state fits in
      (
        record {
          table = sound.table;
          requested_lists = sound.requested_lists;
          accepted_list = sound.accepted_list;
          rejected_list = delist-IsList is_rejected s.cells p _ sound.rejected_list;
        },
        record {
          is_there = here;
          not_requested = λ q.
              far_from s sound (is_stub q) p item _ here (others.0 q) (sound.requested_lists q);
          not_accepted = far_from s sound is_accepted p item _ here others.1 sound.accepted_list;
          not_rejected = delist_apart p s.rejected_inventories;
        },
      )

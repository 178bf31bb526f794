-- ===== src/Network/Items/Gathered.antt =====
-- 170
use notbit.Common.{
  arith, ℕ, ◌+◌, ◌-◌, ◌*◌, ◌^◌, ◌%◌, ◌≡◌, ◌≢◌, refl, ◌∙◌, ap, List, [], ◌∷◌, All, Bool, Bool-cases,
  inl, inr, true, false, ◌||◌, ◌&&◌, not, ==_iff, Option, none, some, leb, Outcome, ok, ◌>>=◌,
}
use notbit.Network.Items.Collecting.{
  max_stub_inventory_age, gc_requested_item, is_outdated, gc_accepted, gc_rejected, gc_item,
}
use notbit.Network.Items.Entered.{write-IsEntered}
use notbit.Network.Items.Keeps.{same_item}
use notbit.Network.Items.Finding.{Ends, eq-Ends, deref_lem, act-IsSound}
use notbit.Network.Items.Lists.{
  is_stub, is_accepted, is_rejected, Holds, IsList, keep, write-All, stay-All,
}
use notbit.Network.Items.Objects.{inv_cache_age}
use notbit.Network.Items.Sound.{IsSound, free-IsSound, far_from, accepted_only}
use notbit.Network.Items.Taking.{take_stub-IsSound, take_accepted-IsSound, take_rejected-IsSound}
use notbit.Network.Items.{
  InvState, unset, stub, rejected, accepted, InventoryItem, delete, Inventories, put_at, write,
  leave, act,
}
use notbit.Proto.Types.{msg}

-- Items at other addresses than `p` are as they were.
abbrev Spares : ℕ → Inventories → Inventories → Type 0
Spares p s s' =
    (test : InvState → Bool) (list : List ℕ)
    → All (λ a. a ≢ p) list
    → All (Holds test s.cells) list
    → All (Holds test s'.cells) list

-- A round of a loop that is at the address `p`.
abbrev Round : ℕ → Inventories → Outcome Inventories → Type 0
Round p s r = (s' : Inventories) × (r ≡ ok s') × IsSound s' × Spares p s s'

stay-Round : (p : ℕ) (s : Inventories) → IsSound s → Round p s (ok s)
stay-Round p s sound = (s, refl, sound, λ test list ne h. h)

write-Round :
    (p : ℕ) (x : Option InventoryItem) (s s' : Inventories)
    → IsSound s'
    → s'.cells ≡ put_at p x s.cells
    → Round p s (ok s')
write-Round p x s s' sound e =
    (s', refl, sound, λ test list ne h. rw e (write-All test s.cells p x list ne h))

-- A loop over a list of different items with such rounds.
module _ (test : InvState → Bool) (round : ℕ → Inventories → Outcome Inventories)
    (loop : List ℕ → Inventories → Outcome Inventories)
    (loop_done : (s : Inventories) → loop [] s ≡ ok s)
    (loop_on : (p : ℕ) (list : List ℕ) (s : Inventories)
      → loop (p ∷ list) s ≡ (round p s >>= loop list))
    (fine : (p : ℕ) (s : Inventories)
      → IsSound s
      → Holds test s.cells p
      → Round p s (round p s)) where
  pub loop-Ends :
      (list : List ℕ) (s : Inventories) → IsSound s → IsList test s.cells list → Ends (loop list s)
  loop-Ends [] s sound h = (s, loop_done s, sound)
  loop-Ends (p ∷ list) s sound h =
      let (s', e, sound', spares) = fine p s sound h.0.0 in
      eq-Ends (loop_on p list s ∙ ap (λ r. r >>= loop list) e)
        (loop-Ends list s' sound' (spares test list h.1.0 h.0.1, h.1.1))

pub requested-Round :
    (now peer p : ℕ) (s : Inventories) (item : InventoryItem) (state : InvState)
    → IsSound s
    → s.cells p ≡ some item
    → item.state ≡ state
    → is_stub peer state ≡ true
    → Round p s (gc_requested_item now peer p s)
unfolding gc_requested_item leave
requested-Round now peer p s item (stub q time) sound here e fits =
    elim (Bool-cases (leb (max_stub_inventory_age * 1000000) ((now + 2 ^ 64 - time) % 2 ^ 64))) [
      | inl old ↦
          let q_is : q ≡ peer = (==_iff q peer).0 fits in
          let there =
            here
            ∙ ap some (
                same_item item (record { hash = item.hash; state = stub peer time }) refl
                  (e ∙ ap (λ r. stub r time) q_is)) in
          let (taken, loose) = take_stub-IsSound s sound peer p time item.hash there in
          rw (deref_lem p item s here, e, old)
            (write-Round p none s _ (free-IsSound _ taken p _ loose) refl)
      | inr new ↦ rw (deref_lem p item s here, e, new) (stay-Round p s sound)
    ]
requested-Round now peer p s item unset sound here e fits = cc
requested-Round now peer p s item (rejected _) sound here e fits = cc
requested-Round now peer p s item (accepted _ _ _) sound here e fits = cc

-- The blob of an accepted item is given up.
clear-IsSound :
    (s : Inventories) (p : ℕ) (item item' : InventoryItem)
    → IsSound s
    → s.cells p ≡ some item
    → item'.hash ≡ item.hash
    → is_accepted item.state ≡ true
    → is_accepted item'.state ≡ true
    → IsSound (write p item' s)
clear-IsSound s p item item' sound here same fits fits' =
    let others = accepted_only item.state fits in
    record {
      table =
          write-IsEntered s.cells s.next_address s.inventory_hash sound.table p item item' here
            same;
      requested_lists = λ q.
          keep (is_stub q) s.cells p (some item') _
            (far_from s sound (is_stub q) p item _ here (others.0 q) (sound.requested_lists q))
            (sound.requested_lists q);
      accepted_list = (
        stay-All is_accepted s.cells p item' _ fits' sound.accepted_list.0,
        sound.accepted_list.1,
      );
      rejected_list =
          keep is_rejected s.cells p (some item') _
            (far_from s sound is_rejected p item _ here others.1 sound.rejected_list)
            sound.rejected_list;
    }

pub item-Round :
    (unset_blob : ℕ → Bool) (now p : ℕ) (s : Inventories) (item : InventoryItem) (state : InvState)
    → IsSound s
    → s.cells p ≡ some item
    → item.state ≡ state
    → (is_accepted state || is_rejected state) ≡ true
    → Round p s (gc_item unset_blob now p s)
unfolding gc_item gc_accepted gc_rejected leave
item-Round unset_blob now p s item (rejected created) sound here e fits =
    elim (Bool-cases (is_outdated now created msg)) [
      | inl old ↦
          let (taken, loose) =
            take_rejected-IsSound s sound p item (s.n_rejected_inventories - 1) here (rw e refl) in
          rw (deref_lem p item s here, e, old)
            (write-Round p none s _ (free-IsSound _ taken p item loose) refl)
      | inr new ↦
          rw
            (
              deref_lem p item s here,
              e,
              new,
              never (leb (created + inv_cache_age) now) (unset_blob p) (is_rejected item.state)
                  (rw e refl),
            )
            (stay-Round p s sound)
    ]
  where
    never : (a b c : Bool) → c ≡ true → (a && (b && not c)) ≡ false
    never a b c h = ground arith
item-Round unset_blob now p s item (accepted type created blob) sound here e fits =
    elim (Bool-cases (is_outdated now created type)) [
      | inl old ↦
          let (taken, loose) =
            take_accepted-IsSound (act (delete item.hash) s) (act-IsSound _ s sound) p item here
              (rw e refl) in
          rw (deref_lem p item s here, e, old)
            (write-Round p none s _ (free-IsSound _ taken p item loose) refl)
      | inr new ↦ elim (Bool-cases (leb (created + inv_cache_age) now)) [
        | inl f ↦
            rw (deref_lem p item s here, e, new, f)
              (write-Round p _ s _
                (clear-IsSound s p item (record item { state = accepted type created none }) sound
                  here refl (rw e refl) refl)
                refl)
        | inr f ↦ rw (deref_lem p item s here, e, new, f) (stay-Round p s sound)
      ]
    ]
item-Round unset_blob now p s item unset sound here e fits = cc
item-Round unset_blob now p s item (stub _ _) sound here e fits = cc

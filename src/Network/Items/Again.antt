-- ===== src/Network/Items/Again.antt =====
-- An object that comes to the inventory of src/ntb-network.c for the second time.
use mathlib.Core.Path.{subst}
use notbit.Address.{Digests, double_hash}
use notbit.Common.{
  ℕ, ◌≤◌, ◌<◌, ◌≡◌, refl, sym, ◌∙◌, ap, Bytes, List, [], ◌∷◌, length, Bool, true, false, inl, inr,
  ◌⊎◌, some, ok, ◌>>=◌, Outcome-cases, ok-injective,
}
use notbit.Connection.{Blob}
use notbit.Network.Items.Judged.{header-ne-fault, header_long, should_reject_some, whole}
use notbit.Network.Items.Keeps.{same_item, add_object-Ends}
use notbit.Network.Items.Finding.{lookup_iff, found_at, Found}
use notbit.Network.Items.Knowing.{verdict, judge, IsAwaited, place_object_lem, place_known}
use notbit.Network.Items.Objects.{Flags, place_object, add_object, max_rejected_inventories}
use notbit.Network.Items.Sound.{IsSound}
use notbit.Network.Items.{
  InvState, unset, stub, rejected, accepted, InventoryItem, Inventories, lookup,
}
use notbit.Network.{Peer}
use notbit.Proto.Read.{get_command}
use notbit.Proto.Types.{InvType, uint64, timestamp}

-- The hash has an item that is no stub.
record HasItem (hash : Bytes) (s : Inventories) : Type 0 where
  address : ℕ
  item : InventoryItem
  found : lookup hash s ≡ ok (some (address, item))
  is_no_stub : (r time : ℕ) → ¬ (item.state ≡ stub r time)

IsAwaited-or_there :
    (hash : Bytes) (s : Inventories) (found : Found hash s) (state : InvState)
    → found.item.state ≡ state
    → IsAwaited hash s ⊎ HasItem hash s
IsAwaited-or_there hash s found (stub r time) e =
    let item_is =
      same_item found.item (record { hash = hash; state = stub r time }) found.hash_is e in
    inl (
      inr
        (found.address, r, time, found.lookup_is ∙ ap (λ i. ok (some (found.address, i))) item_is))
IsAwaited-or_there hash s found unset e = inr (record {
  address = found.address;
  item = found.item;
  found = found.lookup_is;
  is_no_stub = λ r time f. cc;
})
IsAwaited-or_there hash s found (rejected _) e = inr (record {
  address = found.address;
  item = found.item;
  found = found.lookup_is;
  is_no_stub = λ r time f. cc;
})
IsAwaited-or_there hash s found (accepted _ _ _) e = inr (record {
  address = found.address;
  item = found.item;
  found = found.lookup_is;
  is_no_stub = λ r time f. cc;
})

verdict_no_stub :
    (bad : Bool) (now : ℕ) (type : InvType) (created : ℕ) (blob : Blob) (r time : ℕ)
    → ¬ (verdict bad now type created blob ≡ stub r time)
verdict_no_stub true now type created blob r time e = cc
verdict_no_stub false now type created blob r time e = cc

judge_some :
    (h : Digests) (now : ℕ) (type : InvType) (created : ℕ) (bytes : Bytes) (skip : Bool)
    → 8 ≤ length bytes
    → (bad : Bool) × (judge h now type created bytes skip ≡ ok bad)
judge_some h now type created bytes true long = (false, refl)
judge_some h now type created bytes false long = should_reject_some h now created type bytes long

known_after :
    (h : Digests) (now : ℕ) (hash : Bytes) (type : InvType) (created : ℕ) (blob : Blob)
    (flags : Flags) (peers : List Peer) (s t : Inventories)
    → IsSound s
    → IsSound t
    → s.n_rejected_inventories < max_rejected_inventories
    → 8 ≤ length blob.contents
    → place_object h now hash type created blob flags peers s ≡ ok t
    → IsAwaited hash s ⊎ HasItem hash s
    → HasItem hash t
known_after h now hash type created blob flags peers s t sound sound_t room long placed
      (inl awaited) =
    let (bad, e) = judge_some h now type created blob.contents flags.skip_validation long in
    let (t', p, f, there) =
      place_object_lem h now hash type created blob flags peers s bad room e awaited in
    let t_is : t' ≡ t = ok-injective (sym f ∙ placed) in
    let state = verdict bad now type created blob in
    record {
      address = p;
      item = record { hash = hash; state = state };
      found = found_at t sound_t p _ (ap (λ u. u.cells p) (sym t_is) ∙ there);
      is_no_stub = verdict_no_stub bad now type created blob;
    }
known_after h now hash type created blob flags peers s t sound sound_t room long placed (inr has) =
    let same =
      place_known h now hash type created blob flags peers s has.address has.item has.item.state
        has.found refl has.is_no_stub in
    subst (HasItem hash) (ok-injective (sym same ∙ placed)) has

given_again :
    (h : Digests) (now now' : ℕ) (type type' : InvType) (bytes : Bytes) (flags flags' : Flags)
    (peers peers' : List Peer) (s t : Inventories)
    → IsSound s
    → s.n_rejected_inventories < max_rejected_inventories
    → add_object h now type bytes flags peers s ≡ ok t
    → add_object h now' type' bytes flags' peers' t ≡ ok t
unfolding add_object
given_again h now now' type type' bytes flags flags' peers peers' s t sound room given =
    elim (Outcome-cases (get_command (uint64 ∷ timestamp ∷ []) (whole bytes))) [
      | inr (inr e) ↦ absurd (header-ne-fault bytes e)
      | inr (inl e) ↦ rw (e, add_object) refl
      | inl (((nonce, (created, last)), c), e) ↦
          let (t', f, sound') = add_object-Ends h now type flags peers s sound room bytes in
          let sound_t : IsSound t = subst IsSound (ok-injective (sym f ∙ given)) sound' in
          let hash = double_hash h bytes in
          let status : IsAwaited hash s ⊎ HasItem hash s = elim (lookup_iff hash s sound) [
            | inl missing ↦ inl (inl missing)
            | inr found ↦ IsAwaited-or_there hash s found found.item.state refl
          ] in
          let has =
            known_after h now hash type created (record { type = type; contents = bytes }) flags
              peers s t sound sound_t room (header_long bytes _ e) (rw (add_object, e) at given)
              status in
          rw (e, add_object)
            (place_known h now' hash type' created _ flags' peers' t has.address has.item
              has.item.state has.found refl has.is_no_stub)
    ]

-- An object that is given to the node a second time changes nothing, whatever the type, the flags, the
-- time and the peers are then, if the inventory is sound and has fewer than 16384 rejected items before.
pub add_object_again :
    (h : Digests) (now now' : ℕ) (type type' : InvType) (bytes : Bytes) (flags flags' : Flags)
    (peers peers' : List Peer) (s : Inventories)
    → IsSound s
    → s.n_rejected_inventories < max_rejected_inventories
    → (add_object h now type bytes flags peers s >>= add_object h now' type' bytes flags' peers')
      ≡ add_object h now type bytes flags peers s
add_object_again h now now' type type' bytes flags flags' peers peers' s sound room =
    let (t, e, _) = add_object-Ends h now type flags peers s sound room bytes in
    rw e (given_again h now now' type type' bytes flags flags' peers peers' s t sound room e)

-- ===== src/Network/Items/Steps.antt =====
-- Everything that happens to the inventory of src/ntb-network.c, in any order.
use notbit.Address.{Digests}
use notbit.Common.{
  Bool, ℕ, ◌-◌, ◌<◌, ◌≡◌, refl, sym, ◌∙◌, arith, ok-injective, Bytes, List, [], ◌∷◌, length, All,
  Bool-cases, inl, inr, ◌==◌, some, Outcome, ok,
}
use mathlib.Core.Path.{subst}
use notbit.HashTable.Setting.{new-IsValid, get-new}
use notbit.Network.Items.Collected.{gc_timeout_cb-Ends, forget_peer-Ends}
use notbit.Network.Items.Collecting.{forget_peer, gc_timeout_cb}
use notbit.Network.Items.Keeps.{handle_inv-Ends, store_for_each_blob_cb-Ends, add_object-Ends}
use notbit.Network.Items.Finding.{
  Ends, ok-Ends, lookup_iff, act-IsSound, broadcast_inv-IsSound, reports,
}
use notbit.Network.Items.Objects.{
  Flags, remove_at, broadcast_delayed_inv_cb, add_object, store_for_each_blob_cb,
  max_rejected_inventories,
}
use notbit.Network.Items.Sound.{IsSound}
use notbit.Network.Items.{
  InvState, unset, stub, rejected, accepted, InventoryItem, give, Inventories, new_inventories,
  lookup, answer, handle_inv, handle_getdata, act,
}
use notbit.Network.{Peer}
use notbit.Proto.Types.{InvType}

-- A peer announces hashes or asks for them, an object comes from a peer or from the node itself, the
-- store has an object, the time of a delayed broadcast has come, old items are collected, a peer goes.
pub data Happening : Type 0 where
  announced asked_for : (now peer : ℕ) → List Bytes → Happening
  came : (now : ℕ) → InvType → Bytes → Flags → List Peer → Happening
  stored : InvType → Bytes → (created : ℕ) → Happening
  waited : List Peer → (i : ℕ) → Happening
  collected : (unset_blob : ℕ → Bool) (now clock : ℕ) → List Peer → Happening
  gone : (peer : ℕ) → Happening

unfoldable pub perform : Digests → Happening → Inventories → Outcome Inventories
perform h (announced now peer hashes) = handle_inv now peer hashes
perform h (asked_for now peer hashes) = handle_getdata peer hashes
perform h (came now type bytes flags peers) = add_object h now type bytes flags peers
perform h (stored type hash created) = store_for_each_blob_cb type hash created
perform h (waited peers i) = broadcast_delayed_inv_cb peers i
perform h (collected unset_blob now clock peers) = gc_timeout_cb unset_blob now clock peers
perform h (gone peer) = forget_peer peer

-- The item that a hash has, if it has one, is no stub.
abbrev pub HasCome : Bytes → Inventories → Type 0
HasCome hash s =
    (p : ℕ) (item : InventoryItem)
    → lookup hash s ≡ ok (some (p, item))
    → ((r time : ℕ) → ¬ (item.state ≡ stub r time)) × ¬ (item.state ≡ unset)

abbrev pub IsFine : Happening → Inventories → Type 0
IsFine (asked_for now peer hashes) s = All (λ hash. HasCome hash s) hashes
IsFine (came now type bytes flags peers) s = s.n_rejected_inventories < max_rejected_inventories
IsFine (waited peers i) s = i < length s.delayed_broadcasts
IsFine _ s = Unit {0}

answer-Ends :
    (peer : ℕ) (item : InventoryItem) (state : InvState) (s : Inventories)
    → IsSound s
    → item.state ≡ state
    → ((r time : ℕ) → ¬ (item.state ≡ stub r time))
    → ¬ (item.state ≡ unset)
    → (s' : Inventories) × (answer peer item s ≡ ok s')
      × IsSound s'
      × ((hash : Bytes) → lookup hash s' ≡ lookup hash s)
unfolding answer lookup
answer-Ends peer item unset s sound e ne nu = absurd (nu e)
answer-Ends peer item (stub r time) s sound e ne nu = absurd (ne r time e)
answer-Ends peer item (rejected time) s sound e ne nu = (s, rw e refl, sound, λ hash. refl)
answer-Ends peer item (accepted type time blob) s sound e ne nu = (
  act (give peer item.hash blob) s,
  rw e refl,
  act-IsSound (give peer item.hash blob) s sound,
  λ hash. refl,
)

still :
    (hashes : List Bytes) (s s' : Inventories)
    → ((hash : Bytes) → lookup hash s' ≡ lookup hash s)
    → All (λ hash. HasCome hash s) hashes
    → All (λ hash. HasCome hash s') hashes
still [] s s' same h = tt
still (hash ∷ hashes) s s' same h =
    (λ p item e. h.0 p item (sym (same hash) ∙ e), still hashes s s' same h.1)

handle_getdata-Ends :
    (peer : ℕ) (hashes : List Bytes) (s : Inventories)
    → IsSound s
    → All (λ hash. HasCome hash s) hashes
    → Ends (handle_getdata peer hashes s)
unfolding handle_getdata
handle_getdata-Ends peer [] s sound h = ok-Ends s sound
handle_getdata-Ends peer (hash ∷ hashes) s sound h = elim (lookup_iff hash s sound) [
  | inl (e, f) ↦ rw f (handle_getdata-Ends peer hashes s sound h.1)
  | inr found ↦
      let item = found.item in
      let come = h.0 found.address item found.lookup_is in
      let (s', e, sound', same) = answer-Ends peer item item.state s sound refl come.0 come.1 in
      rw (found.lookup_is, e)
        (handle_getdata-Ends peer hashes s' sound' (still hashes s s' same h.1))
]

remove_at_lem :
    (i : ℕ) (list : List Bytes)
    → i < length list
    → (x : Bytes) × (rest : List Bytes) × (remove_at i list ≡ some (x, rest))
remove_at_lem i [] h = absurd (omega arith)
remove_at_lem i (x ∷ list) h = elim (Bool-cases (i == 0)) [
  | inl e ↦ (x, list, rw e refl)
  | inr e ↦
      let (y, rest, f) = remove_at_lem (i - 1) list (ground (arith, e)) in
      (y, x ∷ rest, rw (e, f) refl)
]

perform-Ends :
    (h : Digests) (event : Happening) (s : Inventories)
    → IsSound s
    → IsFine event s
    → Ends (perform h event s)
unfolding perform
perform-Ends h (announced now peer hashes) s sound fine = handle_inv-Ends now peer hashes s sound
perform-Ends h (asked_for now peer hashes) s sound fine =
    handle_getdata-Ends peer hashes s sound fine
perform-Ends h (came now type bytes flags peers) s sound fine =
    add_object-Ends h now type flags peers s sound fine bytes
perform-Ends h (stored type hash created) s sound fine =
    store_for_each_blob_cb-Ends type hash created s sound
perform-Ends h (waited peers i) s sound fine =
    let (hash, rest, e) = remove_at_lem i s.delayed_broadcasts fine in
    unfold broadcast_delayed_inv_cb in
    rw (e, broadcast_delayed_inv_cb)
      (ok-Ends _ (broadcast_inv-IsSound peers hash _ (reports s.actions rest sound)))
perform-Ends h (collected unset_blob now clock peers) s sound fine =
    gc_timeout_cb-Ends unset_blob now clock peers s sound
perform-Ends h (gone peer) s sound fine = forget_peer-Ends peer s sound

-- What a new inventory comes to.
pub data Reach (h : Digests) : Inventories → Type 0 where
  start : Reach h new_inventories
  next :
      {s s' : Inventories} (event : Happening)
      → Reach h s
      → IsFine event s
      → perform h event s ≡ ok s'
      → Reach h s'

new-IsSound : IsSound new_inventories
unfolding new_inventories
new-IsSound = record {
  table = record {
    valid = new-IsValid;
    live = λ hash v e. absurd (cc (e, get-new hash));
    entered = λ address item e. absurd (cc e);
    fresh = λ address le. refl;
    aligned = λ address item e. absurd (cc e);
    next_aligned = refl;
  };
  requested_lists = λ peer. (tt, tt);
  accepted_list = (tt, tt);
  rejected_list = (tt, tt);
}

pub Reach-IsSound : {h : Digests} {s : Inventories} → Reach h s → IsSound s
Reach-IsSound start = new-IsSound
Reach-IsSound {h} (next {s} {s'} event reach fine e) =
    let (t, f, sound) = perform-Ends h event s (Reach-IsSound reach) fine in
    subst IsSound (ok-injective (sym f ∙ e)) sound

-- Whatever happened to a new inventory, the next event ends without a fault, and afterwards the table has
-- every item under its hash and nothing else and each list has different items in the state that belongs
-- to it, if no stub is asked for, a timer that fires is one that waits, and there were fewer than 16384
-- rejected items whenever an object came. What the blob of a rejected item holds, which was never set, does
-- not matter.
pub Reach-perform :
    {h : Digests} {s : Inventories} (event : Happening)
    → Reach h s
    → IsFine event s
    → (s' : Inventories) × (perform h event s ≡ ok s') × IsSound s'
Reach-perform {h} {s} event reach fine = perform-Ends h event s (Reach-IsSound reach) fine

-- ===== src/Network/Items/Lists.antt =====
-- The lists of items of src/ntb-network.c: the items in a list are in the state that belongs to it.
use notbit.Common.{
  ℕ, ◌≡◌, ◌≢◌, refl, sym, ◌∙◌, ap, List, [], ◌∷◌, All, Bool, Bool-cases, inl, inr, true, false,
  Option, none, some, ◌==◌, ==_refl,
}
use notbit.Network.Items.Entered.{put_at_other}
use notbit.Network.Items.{InvState, stub, rejected, accepted, InventoryItem, put_at, delist}

abbrev pub is_stub : ℕ → InvState → Bool
is_stub peer (stub p _) = p == peer
is_stub peer _ = false

abbrev pub is_accepted : InvState → Bool
is_accepted (accepted _ _ _) = true
is_accepted _ = false

abbrev pub is_rejected : InvState → Bool
is_rejected (rejected _) = true
is_rejected _ = false

-- An item whose state passes a test stands at an address.
pub record Holds (test : InvState → Bool) (cells : ℕ → Option InventoryItem) (address : ℕ)
    : Type 0 where
  pub item : InventoryItem
  pub is_there : cells address ≡ some item
  pub fits : test item.state ≡ true

abbrev pub Distinct : List ℕ → Type 0
Distinct [] = Unit {0}
Distinct (a ∷ list) = All (λ b. b ≢ a) list × Distinct list

-- Such items stand at all addresses of a list, which are different.
abbrev pub IsList : (InvState → Bool) → (ℕ → Option InventoryItem) → List ℕ → Type 0
IsList test cells list = All (Holds test cells) list × Distinct list

pub Holds-not :
    (test : InvState → Bool) (cells : ℕ → Option InventoryItem) (p : ℕ) (item : InventoryItem)
    → cells p ≡ some item
    → test item.state ≡ false
    → ¬ Holds test cells p
Holds-not test cells p item here off h = cc (h.is_there, h.fits, here, off)

pub Holds-none :
    (test : InvState → Bool) (cells : ℕ → Option InventoryItem) (p : ℕ)
    → cells p ≡ none
    → ¬ Holds test cells p
Holds-none test cells p gone h = cc (h.is_there, gone)

-- A list that does not have the address that is written to.
pub write-All :
    (test : InvState → Bool) (cells : ℕ → Option InventoryItem) (p : ℕ) (x : Option InventoryItem)
    (list : List ℕ)
    → All (λ a. a ≢ p) list
    → All (Holds test cells) list
    → All (Holds test (put_at p x cells)) list
write-All test cells p x [] ne h = tt
write-All test cells p x (a ∷ list) ne h = (
  record {
    item = h.0.item;
    is_there = put_at_other p a x cells ne.0 ∙ h.0.is_there;
    fits = h.0.fits;
  },
  write-All test cells p x list ne.1 h.1,
)

pub apart :
    (test : InvState → Bool) (cells : ℕ → Option InventoryItem) (p : ℕ) (list : List ℕ)
    → ¬ Holds test cells p
    → All (Holds test cells) list
    → All (λ a. a ≢ p) list
apart test cells p [] off h = tt
apart test cells p (a ∷ list) off h = (
  λ e.
      off (record { item = h.0.item; is_there = ap cells (sym e) ∙ h.0.is_there; fits = h.0.fits }),
  apart test cells p list off h.1,
)

pub keep :
    (test : InvState → Bool) (cells : ℕ → Option InventoryItem) (p : ℕ) (x : Option InventoryItem)
    (list : List ℕ)
    → All (λ a. a ≢ p) list
    → IsList test cells list
    → IsList test (put_at p x cells) list
keep test cells p x list ne h = (write-All test cells p x list ne h.0, h.1)

pub delist_apart : (p : ℕ) (list : List ℕ) → All (λ a. a ≢ p) (delist p list)
delist_apart p [] = tt
delist_apart p (a ∷ list) = elim (Bool-cases (a == p)) [
  | inl e ↦ rw e (delist_apart p list)
  | inr e ↦ rw e (λ same. cc (e, ==_refl p, same), delist_apart p list)
]

delist-All {κ} : (P : ℕ → Type κ) (p : ℕ) (list : List ℕ) → All P list → All P (delist p list)
delist-All P p [] h = tt
delist-All P p (a ∷ list) h = elim (Bool-cases (a == p)) [
  | inl e ↦ rw e (delist-All P p list h.1)
  | inr e ↦ rw e (h.0, delist-All P p list h.1)
]

delist-Distinct : (p : ℕ) (list : List ℕ) → Distinct list → Distinct (delist p list)
delist-Distinct p [] h = tt
delist-Distinct p (a ∷ list) h = elim (Bool-cases (a == p)) [
  | inl e ↦ rw e (delist-Distinct p list h.1)
  | inr e ↦ rw e (delist-All (λ b. b ≢ a) p list h.0, delist-Distinct p list h.1)
]

pub delist-IsList :
    (test : InvState → Bool) (cells : ℕ → Option InventoryItem) (p : ℕ) (list : List ℕ)
    → IsList test cells list
    → IsList test cells (delist p list)
delist-IsList test cells p list h =
    (delist-All (Holds test cells) p list h.0, delist-Distinct p list h.1)

-- An address becomes the first of a list.
pub join :
    (test : InvState → Bool) (cells : ℕ → Option InventoryItem) (p : ℕ) (item : InventoryItem)
    (list : List ℕ)
    → cells p ≡ some item
    → test item.state ≡ true
    → All (λ a. a ≢ p) list
    → IsList test cells list
    → IsList test cells (p ∷ list)
join test cells p item list here fits ne h =
    ((record { item = item; is_there = here; fits = fits }, h.0), (ne, h.1))

-- An item is changed and still passes the test.
pub stay-All :
    (test : InvState → Bool) (cells : ℕ → Option InventoryItem) (p : ℕ) (item : InventoryItem)
    (list : List ℕ)
    → test item.state ≡ true
    → All (Holds test cells) list
    → All (Holds test (put_at p (some item) cells)) list
stay-All test cells p item [] fits h = tt
stay-All test cells p item (a ∷ list) fits h = elim (Bool-cases (a == p)) [
  | inl e ↦ (
    record { item = item; is_there = rw e refl; fits = fits },
    stay-All test cells p item list fits h.1,
  )
  | inr e ↦ (
    record { item = h.0.item; is_there = rw e h.0.is_there; fits = h.0.fits },
    stay-All test cells p item list fits h.1,
  )
]

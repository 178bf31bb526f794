-- ===== src/Network/Roster.antt =====
-- The peers of src/ntb-network.c as the list of their numbers and directions, and what is counted of them.
use notbit.Common.{
  ℕ, suc, ◌+◌, ◌-◌, ◌≤◌, ◌<◌, ◌≡◌, ◌≢◌, refl, sym, ◌∙◌, ap, arith, List, [], ◌∷◌, All, map, Bool,
  Bool-cases, inl, inr, true, false, ◌==◌, ==_iff, ==_ne, ◌⊎◌, if◌then◌else◌,
}
use notbit.Network.{Direction, Peer, update_peer}
use notbit.Network.Peers.{without_peer}

abbrev pub Entry : Type 0
Entry = ℕ × Direction

abbrev pub entry : Peer → Entry
entry p = (p.id, p.direction)

abbrev pub roster : List Peer → List Entry
roster [] = []
roster (p ∷ peers) = entry p ∷ roster peers

-- What a peer adds to the number of outgoing peers, and to that of incoming peers.
abbrev pub goes_out : Direction → ℕ
goes_out Direction.outgoing = 1
goes_out Direction.incoming = 0

abbrev pub comes_in : Direction → ℕ
comes_in Direction.outgoing = 0
comes_in Direction.incoming = 1

abbrev pub count : (Direction → ℕ) → List Entry → ℕ
count w [] = 0
count w (e ∷ es) = w e.1 + count w es

-- How many of the peers go out, and how many came in.
abbrev pub n_outgoing : List Peer → ℕ
n_outgoing peers = count goes_out (roster peers)

abbrev pub n_incoming : List Peer → ℕ
n_incoming peers = count comes_in (roster peers)

abbrev Distinct : List Entry → Type 0
Distinct [] = Unit {0}
Distinct (e ∷ es) = All (λ (x : Entry). x.0 ≢ e.0) es × Distinct es

-- The counts are those of the peers, whose numbers are different and were given out before.
pub record Listed (es : List Entry) (next out inc : ℕ) : Type 0 where
  pub outgoing : count goes_out es ≡ out
  pub incoming : count comes_in es ≡ inc
  pub fresh : All (λ (e : Entry). e.0 < next) es
  pub distinct : Distinct es

later :
    (n m : ℕ) (es : List Entry)
    → n ≤ m
    → All (λ (e : Entry). e.0 < n) es
    → All (λ (e : Entry). e.0 < m) es
later n m [] le h = tt
later n m (e ∷ es) le h = (omega (arith, h.0), later n m es le h.1)

unused :
    (n : ℕ) (es : List Entry) → All (λ (e : Entry). e.0 < n) es → All (λ (e : Entry). e.0 ≢ n) es
unused n [] h = tt
unused n (e ∷ es) h = (λ same. omega (arith, same, h.0), unused n es h.1)

pub same-Listed :
    (es es' : List Entry) (next next' out out' inc inc' : ℕ)
    → es' ≡ es
    → next ≤ next'
    → out' ≡ out
    → inc' ≡ inc
    → Listed es next out inc
    → Listed es' next' out' inc'
same-Listed es es' next next' out out' inc inc' e le f g h = record {
  outgoing = ap (count goes_out) e ∙ h.outgoing ∙ sym f;
  incoming = ap (count comes_in) e ∙ h.incoming ∙ sym g;
  fresh = rw e (later next next' es le h.fresh);
  distinct = rw e h.distinct;
}

pub out-Listed :
    (es : List Entry) (next out inc : ℕ)
    → Listed es next out inc
    → Listed ((next, Direction.outgoing) ∷ es) (suc next) (suc out) inc
out-Listed es next out inc h = record {
  outgoing = omega (arith, h.outgoing);
  incoming = omega (arith, h.incoming);
  fresh = (omega arith, later next (suc next) es (omega arith) h.fresh);
  distinct = (unused next es h.fresh, h.distinct);
}

pub in-Listed :
    (es : List Entry) (next out inc : ℕ)
    → Listed es next out inc
    → Listed ((next, Direction.incoming) ∷ es) (suc next) out (suc inc)
in-Listed es next out inc h = record {
  outgoing = omega (arith, h.outgoing);
  incoming = omega (arith, h.incoming);
  fresh = (omega arith, later next (suc next) es (omega arith) h.fresh);
  distinct = (unused next es h.fresh, h.distinct);
}

-- A peer of the list.
abbrev pub IsPeer : Peer → List Peer → Type 0
IsPeer p [] = ⊥
IsPeer p (q ∷ peers) = (q ≡ p) ⊎ IsPeer p peers

abbrev pub In : Entry → List Entry → Type 0
In x [] = ⊥
In x (e ∷ es) = (e ≡ x) ⊎ In x es

pub IsPeer-In : (p : Peer) (peers : List Peer) → IsPeer p peers → In (entry p) (roster peers)
IsPeer-In p [] h = absurd h
IsPeer-In p (q ∷ peers) (inl e) = inl (ap entry e)
IsPeer-In p (q ∷ peers) (inr h) = inr (IsPeer-In p peers h)

abbrev drop_entry : ℕ → List Entry → List Entry
drop_entry id [] = []
drop_entry id (e ∷ es) = let rest = drop_entry id es in if e.0 == id then rest else e ∷ rest

pub roster-without_peer :
    (id : ℕ) (peers : List Peer) → roster (without_peer id peers) ≡ drop_entry id (roster peers)
roster-without_peer id [] = refl
roster-without_peer id (p ∷ peers) = elim (Bool-cases (p.id == id)) [
  | inl e ↦ rw e (roster-without_peer id peers)
  | inr e ↦ rw e (ap (λ t. entry p ∷ t) (roster-without_peer id peers))
]

drop_apart : (id : ℕ) (es : List Entry) → All (λ (e : Entry). e.0 ≢ id) es → drop_entry id es ≡ es
drop_apart id [] h = refl
drop_apart id (e ∷ es) h = rw (==_ne e.0 id h.0) (ap (λ t. e ∷ t) (drop_apart id es h.1))

count-drop :
    (w : Direction → ℕ) (id : ℕ) (d : Direction) (es : List Entry)
    → Distinct es
    → In (id, d) es
    → count w es ≡ w d + count w (drop_entry id es)
count-drop w id d [] distinct h = absurd h
count-drop w id d (e ∷ es) (apart, rest) (inl same) =
    let at : e.0 ≡ id = ap (λ (x : Entry). x.0) same in
    let turned : e.1 ≡ d = ap (λ (x : Entry). x.1) same in
    rw ((==_iff e.0 id).1 at, drop_apart id es (rw at at apart), turned) refl
count-drop w id d (e ∷ es) (apart, rest) (inr h) = elim (Bool-cases (e.0 == id)) [
  | inl f ↦ absurd (not_in id d e.0 es ((==_iff e.0 id).0 f) apart h)
  | inr f ↦ rw f (omega (arith, count-drop w id d es rest h))
]
  where
    not_in :
        (id : ℕ) (d : Direction) (k : ℕ) (es : List Entry)
        → k ≡ id
        → All (λ (x : Entry). x.0 ≢ k) es
        → In (id, d) es
        → ⊥
    not_in id d k [] same h i = i
    not_in id d k (x ∷ es) same h (inl e) = h.0 (ap (λ (y : Entry). y.0) e ∙ sym same)
    not_in id d k (x ∷ es) same h (inr i) = not_in id d k es same h.1 i

All-drop : (P : Entry → Type 0) (id : ℕ) (es : List Entry) → All P es → All P (drop_entry id es)
All-drop P id [] h = tt
All-drop P id (e ∷ es) h = elim (Bool-cases (e.0 == id)) [
  | inl f ↦ rw f (All-drop P id es h.1)
  | inr f ↦ rw f (h.0, All-drop P id es h.1)
]

Distinct-drop : (id : ℕ) (es : List Entry) → Distinct es → Distinct (drop_entry id es)
Distinct-drop id [] h = tt
Distinct-drop id (e ∷ es) h = elim (Bool-cases (e.0 == id)) [
  | inl f ↦ rw f (Distinct-drop id es h.1)
  | inr f ↦ rw f (All-drop (λ (x : Entry). x.0 ≢ e.0) id es h.0, Distinct-drop id es h.1)
]

pub drop-Listed :
    (id : ℕ) (d : Direction) (peers : List Peer) (next out out' inc inc' : ℕ)
    → In (id, d) (roster peers)
    → out' ≡ out - goes_out d
    → inc' ≡ inc - comes_in d
    → Listed (roster peers) next out inc
    → Listed (roster (without_peer id peers)) next out' inc'
drop-Listed id d peers next out out' inc inc' i f g h =
    let es = roster peers in
    let leaves = count-drop goes_out id d es h.distinct i in
    let leaves' = count-drop comes_in id d es h.distinct i in
    same-Listed (drop_entry id es) _ next next _ _ _ _ (roster-without_peer id peers) (omega arith)
      f g
      (record {
        outgoing = omega (arith, leaves, h.outgoing);
        incoming = omega (arith, leaves', h.incoming);
        fresh = All-drop (λ (e : Entry). e.0 < next) id es h.fresh;
        distinct = Distinct-drop id es h.distinct;
      })

-- What is written to peers changes neither their numbers nor their directions.
pub roster-map :
    (f : Peer → Peer)
    → ((p : Peer) → entry (f p) ≡ entry p)
    → (peers : List Peer) → roster (map f peers) ≡ roster peers
roster-map f same [] = refl
roster-map f same (p ∷ peers) = rw (same p) (ap (λ t. entry p ∷ t) (roster-map f same peers))

pub if-entry : (b : Bool) (p q : Peer) → entry q ≡ entry p → entry (if b then q else p) ≡ entry p
if-entry true p q e = e
if-entry false p q e = refl

pub roster-update_peer :
    (id : ℕ) (f : Peer → Peer)
    → ((p : Peer) → entry (f p) ≡ entry p)
    → (peers : List Peer) → roster (update_peer id f peers) ≡ roster peers
roster-update_peer id f same =
    roster-map (λ p. if p.id == id then f p else p) (λ p. if-entry (p.id == id) p (f p) (same p))

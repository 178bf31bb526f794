-- ===== src/Network/Picking.antt =====
-- connect_queue_cb of src/ntb-network.c: which address it connects to.
use notbit.Common.{
  map, ◌||◌, ℕ, suc, ◌-◌, ◌*◌, ◌/◌, ◌≤◌, ◌<◌, ◌≡◌, refl, ap, arith, List, [], ◌∷◌, ◌++◌, Bool, true,
  false, ◌==◌, ==_ne, Bool-cases, inl, inr, leb, if◌then◌else◌, Option, some, ok,
}
use native.Mathlib.Nat.{div-lt_iff_lt-mul, mul-lt-mul_of_pos_right, mul_comm}
use notbit.Network.{PeerState, Direction, Message, Addr, Network, num_outgoing_peers, update_addr}
use notbit.Network.Addrs.{can_connect_to_addr}
use notbit.Network.Peers.{
  local_port, add_peer, update_all_listen_socket_sources, count_connectable, pick_addr,
  connect_to_addr, connect_queue_cb, occupy,
}

lt→leb : (a b : ℕ) → b < a → leb a b ≡ false
lt→leb a b h = ground arith

module _ (clock : ℕ) (nw : Network) where
  -- An address of the list that can be connected to.
  record Picked (addrs : List Addr) (picked : Option Addr) : Type 0 where
    pub before : List Addr
    pub addr : Addr
    pub behind : List Addr
    pub found : picked ≡ some addr
    pub place : addrs ≡ before ++ addr ∷ behind
    pub free : can_connect_to_addr clock nw addr ≡ true

  later :
      (a : Addr) (addrs : List Addr) (picked : Option Addr)
      → Picked addrs picked
      → Picked (a ∷ addrs) picked
  later a addrs picked p = record {
    before = a ∷ p.before;
    addr = p.addr;
    behind = p.behind;
    found = p.found;
    place = ap (λ t. a ∷ t) p.place;
    free = p.free;
  }

  pick_addr-Picked :
      (n : ℕ) (addrs : List Addr)
      → n < count_connectable clock nw addrs
      → Picked addrs (pick_addr clock nw n addrs)
  unfolding count_connectable pick_addr
  pick_addr-Picked n [] h = absurd (omega arith)
  pick_addr-Picked n (a ∷ addrs) h = elim (Bool-cases (can_connect_to_addr clock nw a)) [
    | inr e ↦
        rw (e, pick_addr)
          (later a addrs _ (pick_addr-Picked n addrs (rw (e, count_connectable) at h)))
    | inl e ↦ elim (Bool-cases (n == 0)) [
      | inl f ↦
          rw (e, f, pick_addr)
            (record { before = []; addr = a; behind = addrs; found = refl; place = refl; free = e })
      | inr f ↦
          let more : n < suc (count_connectable clock nw addrs) = rw (e, count_connectable) at h in
          rw (e, f, pick_addr) (later a addrs _ (pick_addr-Picked (n - 1) addrs (grind arith)))
    ]
  ]

  connect_to_addr_tells :
      (connects : Bool) (addr : Addr) → (connect_to_addr clock connects addr nw).0 ≡ connects
  unfolding connect_to_addr
  connect_to_addr_tells true addr = refl
  connect_to_addr_tells false addr = refl

  -- What is written to an address that was tried, and to no other one.
  abbrev pub noted : Bool → ℕ → Addr → Addr
  noted connects id a =
      if a.id == id
      then record a { last_connect_time = clock; connected = connects || a.connected }
      else a

  -- The peers, the addresses and the counters after an attempt.
  abbrev pub Tried : Bool → Addr → Network → Type 0
  Tried true addr d =
      (d.addrs ≡ map (noted true addr.id) nw.addrs)
      × (d.peers
          ≡ record {
            id = nw.next_id;
            remote_address = addr.address;
            addr = some addr.id;
            requested_inventories = [];
            state = PeerState.awaiting_verack_out;
            direction = Direction.outgoing;
            sent = Message.version nw.nonce (local_port nw) ∷ [];
          }
            ∷ nw.peers)
      × (d.n_outgoing_peers ≡ suc nw.n_outgoing_peers)
      × (d.n_incoming_peers ≡ nw.n_incoming_peers)
      × (d.n_unconnected_addrs ≡ nw.n_unconnected_addrs - 1)
  Tried false addr d =
      (d.addrs ≡ map (noted false addr.id) nw.addrs)
      × (d.peers ≡ nw.peers)
      × (d.n_outgoing_peers ≡ nw.n_outgoing_peers)
      × (d.n_incoming_peers ≡ nw.n_incoming_peers)
      × (d.n_unconnected_addrs ≡ nw.n_unconnected_addrs)

  -- Two writes to an address are one.
  noted-twice :
      (id : ℕ) (addrs : List Addr)
      → update_addr id
          (λ a. record a { connected = true })
          (update_addr id (λ a. record a { last_connect_time = clock }) addrs)
        ≡ map (noted true id) addrs
  noted-twice id [] = refl
  noted-twice id (a ∷ addrs) = elim (Bool-cases (a.id == id)) [
    | inl e ↦
        rw (e, e)
          (ap (λ t. record a { last_connect_time = clock; connected = true } ∷ t)
            (noted-twice id addrs))
    | inr e ↦ rw (e, e) (ap (λ t. a ∷ t) (noted-twice id addrs))
  ]

  connect_to_addr-Tried :
      (connects : Bool) (addr : Addr)
      → Tried connects addr (
          let tried = connect_to_addr clock connects addr nw in
          if connects then occupy addr tried.1 else tried.1)
  unfolding connect_to_addr add_peer update_all_listen_socket_sources
  connect_to_addr-Tried true addr = (noted-twice addr.id nw.addrs, refl, refl, refl, refl)
  connect_to_addr-Tried false addr = (refl, refl, refl, refl, refl)

  module _ (random rand_max : ℕ) (connects : Bool) (room : nw.n_outgoing_peers < num_outgoing_peers)
      (unconnected : 1 ≤ nw.n_unconnected_addrs)
      (some_free : 1 ≤ count_connectable clock nw nw.addrs) where
    -- With room for another outgoing peer and an address that can be connected to, connect_queue_cb tries one of
    -- those addresses, if `rand` gives less than RAND_MAX. The time of the attempt is noted for it. If the
    -- connection could be made, the address is connected from then on and no longer counted as unconnected, and
    -- one more outgoing peer is counted and is in the list, with this address, a version sent to it and a
    -- verack awaited; if not, nothing else changes of the addresses, the peers and the counters.
    pub connect_queue_cb-Picked :
        random < rand_max
        → (addr : Addr) × (before : List Addr) × (behind : List Addr) × (d : Network) × (nw.addrs
            ≡ before ++ addr ∷ behind)
          × (can_connect_to_addr clock nw addr ≡ true)
          × (connect_queue_cb clock random rand_max connects nw ≡ ok d)
          × Tried connects addr d
    unfolding connect_queue_cb
    connect_queue_cb-Picked below =
        let n = count_connectable clock nw nw.addrs in
        let inside : random * n / rand_max < n =
          (div-lt_iff_lt-mul (omega arith)).1
            (rw (mul_comm n rand_max) (mul-lt-mul_of_pos_right below (omega arith))) in
        let p = pick_addr-Picked (random * n / rand_max) nw.addrs inside in
        (
          p.addr,
          p.before,
          p.behind,
          (let tried = connect_to_addr clock connects p.addr nw in
              if connects then occupy p.addr tried.1 else tried.1),
          p.place,
          p.free,
          rw
              (
                lt→leb num_outgoing_peers nw.n_outgoing_peers room,
                ==_ne nw.n_unconnected_addrs 0 (λ z. omega arith),
                ==_ne n 0 (λ z. omega arith),
                p.found,
                connect_to_addr_tells connects p.addr,
                connect_queue_cb,
              )
              refl,
          connect_to_addr-Tried connects p.addr,
        )
